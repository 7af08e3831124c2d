-- ===== src/Store/Items.antt =====
-- internal/store/store_batch.go: the items of a batch, and the statement and arguments of each.
pub mod Columns
use vps_safe_dashboard.Prelude.{ℕ, ◌+◌, List, [], ◌∷◌, ◌++◌, Bytes, Option, none, some, codes}
use vps_safe_dashboard.Event.{Source, Level}
use vps_safe_dashboard.Event.Channels.{Kind, Event}

-- `kind` is a string in the source: `none` is one that is none of the constants.
pub record EventItem (F M : Type 0) : Type 0 where
  pub kind : Option Kind
  pub v : Event F M

-- An argument of a statement.
pub data Arg (F M : Type 0) : Type 0 where
  integer : ℕ → Arg F M
  real : F → Arg F M
  text : Bytes → Arg F M
  source : Source → Arg F M
  level : Level → Arg F M
  message : M → Arg F M

-- INSERT INTO table (columns) VALUES (?, …), with a question mark for each column.
pub record Statement : Type 0 where
  pub table : Bytes
  pub columns : List Bytes

abbrev insert_into : Bytes → List Bytes → Statement
insert_into table columns = record { table = table; columns = columns }

-- `nInBatch` counts the items that are pending.
unfoldable pub enqueue {ℓ} : {A : Type ℓ} → A → List A × ℕ → List A × ℕ
enqueue item (pending, n) = (pending ++ item ∷ [], n + 1)

unfoldable pub insert_stmts : Kind → Statement
insert_stmts Kind.resource = insert_into (codes "resources") (
    codes "ts"
    ∷ codes "cpu_percent"
    ∷ codes "mem_used_mb"
    ∷ codes "mem_percent"
    ∷ codes "disk_used_mb"
    ∷ codes "disk_percent"
    ∷ codes "net_rx_bps"
    ∷ codes "net_tx_bps"
    ∷ [])
insert_stmts Kind.conn = insert_into (codes "connections") (
    codes "ts"
    ∷ codes "ev_type"
    ∷ codes "proto"
    ∷ codes "src_ip"
    ∷ codes "src_port"
    ∷ codes "dst_ip"
    ∷ codes "dst_port"
    ∷ codes "packets"
    ∷ codes "bytes"
    ∷ codes "mark"
    ∷ codes "src_ip6"
    ∷ codes "dst_ip6"
    ∷ [])
insert_stmts Kind.ssh = insert_into (codes "ssh_attempts") (
    codes "ts"
    ∷ codes "src_ip"
    ∷ codes "username"
    ∷ codes "auth_method"
    ∷ codes "result"
    ∷ codes "fingerprint"
    ∷ codes "detail"
    ∷ [])
insert_stmts Kind.fw = insert_into (codes "firewall_events") (
    codes "ts"
    ∷ codes "chain"
    ∷ codes "action"
    ∷ codes "proto"
    ∷ codes "src_ip"
    ∷ codes "src_port"
    ∷ codes "dst_ip"
    ∷ codes "dst_port"
    ∷ codes "raw"
    ∷ [])
insert_stmts Kind.f2b =
    insert_into (codes "ban_events") (codes "ts" ∷ codes "ip" ∷ codes "type" ∷ codes "jail" ∷ [])
insert_stmts Kind.system =
    insert_into (codes "system_events")
      (codes "ts" ∷ codes "source" ∷ codes "level" ∷ codes "message" ∷ [])
insert_stmts Kind.cred = insert_into (codes "cred_events") (
    codes "ts"
    ∷ codes "proto"
    ∷ codes "src_ip"
    ∷ codes "username"
    ∷ codes "password"
    ∷ codes "extra"
    ∷ [])

-- `none` is the error of a value that is not of the kind's type, or of an unknown kind.
module _ {F M : Type 0} where
  unfoldable pub args_of : Kind → Event F M → Option (List (Arg F M))
  args_of Kind.resource (Event.resource v) = some (
      integer v.ts
      ∷ real v.cpu_percent
      ∷ real v.mem_used_mb
      ∷ real v.mem_percent
      ∷ real v.disk_used_mb
      ∷ real v.disk_percent
      ∷ integer v.net_rx_bps
      ∷ integer v.net_tx_bps
      ∷ [])
  args_of Kind.conn (Event.conn v) = some (
      integer v.ts
      ∷ integer v.ev_type
      ∷ integer v.proto
      ∷ integer v.src_ip
      ∷ integer v.src_port
      ∷ integer v.dst_ip
      ∷ integer v.dst_port
      ∷ integer v.packets
      ∷ integer v.bytes
      ∷ integer v.mark
      ∷ text v.src_ip6
      ∷ text v.dst_ip6
      ∷ [])
  args_of Kind.ssh (Event.ssh v) = some (
      integer v.ts
      ∷ integer v.src_ip
      ∷ text v.username
      ∷ text v.auth_method
      ∷ integer v.result
      ∷ text v.fingerprint
      ∷ text v.detail
      ∷ [])
  args_of Kind.fw (Event.fw v) = some (
      integer v.ts
      ∷ text v.chain
      ∷ text v.action
      ∷ integer v.proto
      ∷ integer v.src_ip
      ∷ integer v.src_port
      ∷ integer v.dst_ip
      ∷ integer v.dst_port
      ∷ text v.raw
      ∷ [])
  args_of Kind.f2b (Event.f2b v) =
      some (integer v.ts ∷ integer v.ip ∷ text v.type ∷ text v.jail ∷ [])
  args_of Kind.system (Event.system v) =
      some (integer v.ts ∷ source v.source ∷ level v.level ∷ message v.message ∷ [])
  args_of Kind.cred (Event.cred v) = some (
      integer v.ts
      ∷ text v.proto
      ∷ integer v.src_ip
      ∷ text v.username
      ∷ text v.password
      ∷ text v.extra
      ∷ [])
  args_of k v = none

  unfoldable pub item_args : EventItem F M → Option (List (Arg F M))
  item_args it = elim it.kind [ none ↦ none | some k ↦ args_of k it.v ]
