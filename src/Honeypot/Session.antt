-- ===== src/Honeypot/Session.antt =====
-- A connection as its protocol handler sees it: the bytes that the client sends before it stops, which
-- the reads take in turn, and how many writes still succeed. What the handler does is a list of actions.
pub mod Reads
pub mod Limits
pub mod Rounds
use vps_safe_dashboard.Prelude.{
  ℕ, zero, suc, ◌+◌, ◌-◌, Bool, true, false, List, [], ◌∷◌, ◌++◌, Bytes, Option, none, some, map,
}
use vps_safe_dashboard.Event.{CredEvent}

-- The notes that go with a credential, with what is formatted into them.
pub data Extra : Type 0 where
  no_extra : Extra
  hello_auth : Extra
  no_auth : Bytes → Bytes → Extra
  sha1_hash : Extra
  tds_clear : Extra
  tds_hex : Extra
  ntlm_hash : Extra
  scram : Bytes → Bytes → Extra
  rdp_cookie : Bytes → Extra

-- What a handler passes to `rec`.
pub record Captured : Type 0 where
  pub username : Bytes
  pub password : Bytes
  pub extra : Extra

pub data Action : Type 0 where
  wrote : Bytes → Action
  recorded : Captured → Action

abbrev pub captured : Bytes → Bytes → Captured
captured user pass = record { username = user; password = pass; extra = no_extra }

-- if _, err := conn.Write(b); err != nil { return }, and what follows
unfoldable pub reply : Bytes → ℕ → (ℕ → List Action) → List Action
reply b zero next = []
reply b (suc w) next = wrote b ∷ next w

-- _, _ = conn.Write(b)
unfoldable pub reply_ignored : Bytes → ℕ → (ℕ → List Action) → List Action
reply_ignored b zero next = next zero
reply_ignored b (suc w) next = wrote b ∷ next w

-- What has been recorded, in its order.
unfoldable pub records : List Action → List Captured
records [] = []
records (wrote b ∷ later) = records later
records (recorded c ∷ later) = c ∷ records later

-- io.ReadFull of n bytes: they and the rest, or an error where the client stops before.
unfoldable pub read_full : ℕ → Bytes → Option (Bytes × Bytes)
read_full zero s = some ([], s)
read_full (suc n) [] = none
read_full (suc n) (b ∷ s) = elim (read_full n s) [
  | none ↦ none
  | some (x, rest) ↦ some (b ∷ x, rest)
]

abbrev pub crlf : Bytes
crlf = b'\r' ∷ b'\n' ∷ []

-- What is done with what a read gives, if it gives anything.
abbrev pub with_read {ℓ} :
    {A : Type ℓ} → Option (A × Bytes) → (A → Bytes → List Action) → List Action
with_read none next = []
with_read (some (a, rest)) next = next a rest
