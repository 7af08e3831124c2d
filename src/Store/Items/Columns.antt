-- ===== src/Store/Items/Columns.antt =====
-- The arguments fit the statements, and no field is lost.
use vps_safe_dashboard.Prelude.{ℕ, suc, ◌≡◌, refl, List, ◌∷◌, Option, none, some, length}
use vps_safe_dashboard.Event.Channels.{Kind, Event, ts_of}
use vps_safe_dashboard.Store.Items.{Arg, integer, args_of, insert_stmts}

-- The kind of a value; `none` for a value of any other type.
abbrev pub kind_of : {F M : Type 0} → Event F M → Option Kind
kind_of (Event.resource v) = some Kind.resource
kind_of (Event.conn v) = some Kind.conn
kind_of (Event.ssh v) = some Kind.ssh
kind_of (Event.fw v) = some Kind.fw
kind_of (Event.f2b v) = some Kind.f2b
kind_of (Event.system v) = some Kind.system
kind_of (Event.cred v) = some Kind.cred
kind_of Event.other = none

-- The arguments of a value for the statement of kind `k`: as many as the statement has columns, the
-- first of them the time of the event.
abbrev pub Fits : {F M : Type 0} → Kind → Event F M → Type 0
Fits {F} {M} k v =
    (n : ℕ) × (args : List (Arg F M)) × (args_of k v ≡ some (integer n ∷ args))
    × (ts_of v ≡ some n)
    × (suc (length args) ≡ length (insert_stmts k).columns)

-- A value is written by the statement of its own kind, with one argument for each column and the time
-- of the event first.
pub args_of_lem : {F M : Type 0} (k : Kind) (v : Event F M) → kind_of v ≡ some k → Fits k v
unfolding args_of ts_of insert_stmts
args_of_lem Kind.resource (Event.resource v) e = (v.ts, _, refl, refl, refl)
args_of_lem Kind.conn (Event.conn v) e = (v.ts, _, refl, refl, refl)
args_of_lem Kind.ssh (Event.ssh v) e = (v.ts, _, refl, refl, refl)
args_of_lem Kind.fw (Event.fw v) e = (v.ts, _, refl, refl, refl)
args_of_lem Kind.f2b (Event.f2b v) e = (v.ts, _, refl, refl, refl)
args_of_lem Kind.system (Event.system v) e = (v.ts, _, refl, refl, refl)
args_of_lem Kind.cred (Event.cred v) e = (v.ts, _, refl, refl, refl)
args_of_lem _ _ e = cc
