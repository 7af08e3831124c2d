-- ===== src/Honeypot/Mongodb.antt =====
-- internal/honeypot/mongodb.go.
pub mod Total
pub mod Ends
use vps_safe_dashboard.Prelude.{
  ℕ, zero, suc, ◌+◌, ◌-◌, Bool, true, false, ◌&&◌, ◌||◌, not, List, [], ◌∷◌, ◌++◌, Bytes, Option,
  none, some, codes, list_beq, nat_eq, ltb, leb, ◌==◌, if◌then◌else◌, length, get_elem?, take, drop,
}
use vps_safe_dashboard.Honeypot.{creds_per_conn_limit}
use vps_safe_dashboard.Honeypot.Session.{
  Action, recorded, Captured, scram, reply, read_full, with_read,
}
use vps_safe_dashboard.Honeypot.Wire.{le32, put_le32, slice}
use vps_safe_dashboard.Honeypot.Bson.{le32_at, name_end, bson_document}

-- The user and the nonce.
unfoldable pub note_string : Bytes → Option Bytes → Bytes × Bytes → Option (Bytes × Bytes)
note_string name none found = none
note_string name (some val) (user, rnonce) =
    if list_beq nat_eq name (codes "user")
    then some (val, rnonce)
    else if list_beq nat_eq name (codes "rnonce")
    then some (user, val)
    else some (user, rnonce)

unfoldable pub note_sized : Bytes → ℕ → Bytes → Option ℕ → Bytes × Bytes → Option (Bytes × Bytes)
note_sized doc pos name none found = none
note_sized doc pos name (some n) found =
    if leb 1 n && leb (pos + 4 + n) (length doc)
    then note_string name (slice (pos + 4) (pos + 4 + n - 1) doc) found
    else some found

unfoldable pub note_scram : Bytes → ℕ → ℕ → Bytes → Bytes × Bytes → Option (Bytes × Bytes)
note_scram doc pos typ name found =
    if typ == 0x02 then note_sized doc pos name (le32_at pos doc) found else some found

unfoldable pub parse_scram_payload : Bytes → Option (Bytes × Bytes)
parse_scram_payload doc = bson_document note_scram doc ([], [])

-- What parseMongoCommand has found.
pub record Sasl : Type 0 where
  pub cmd : Bytes
  pub user : Bytes
  pub rnonce : Bytes
  pub is_auth : Bool

abbrev pub or_else : Bytes → Bytes → Bytes
or_else [] old = old
or_else (c ∷ s) old = c ∷ s

unfoldable pub note_payload : Option (Bytes × Bytes) → Sasl → Option Sasl
note_payload none found = none
note_payload (some (user, rnonce)) found = some record {
  cmd = found.cmd;
  user = or_else user found.user;
  rnonce = or_else rnonce found.rnonce;
  is_auth = found.is_auth;
}

unfoldable pub note_slice : Option Bytes → Sasl → Option Sasl
note_slice none found = none
note_slice (some b) found = note_payload (parse_scram_payload b) found

unfoldable pub note_binary : Bytes → ℕ → Option ℕ → Option ℕ → Sasl → Option Sasl
note_binary doc pos (some n) (some sub) found =
    if sub == 0 && leb (pos + 5 + n) (length doc)
    then note_slice (slice (pos + 5) (pos + 5 + n) doc) found
    else some found
note_binary doc pos _ _ found = none

unfoldable pub note_command : Bytes → ℕ → ℕ → Bytes → Sasl → Option Sasl
note_command doc pos typ name found =
    if list_beq nat_eq name (codes "saslStart") || list_beq nat_eq name (codes "saslContinue")
    then if typ == 0x10
      then some record { cmd = name; user = found.user; rnonce = found.rnonce; is_auth = true }
      else some found
    else if list_beq nat_eq name (codes "payload") && typ == 0x05
    then if leb (pos + 5) (length doc)
      then note_binary doc pos (le32_at pos doc) (get_elem? doc (pos + 4)) found
      else some found
    else some found

abbrev pub no_sasl : Sasl
no_sasl = record { cmd = []; user = []; rnonce = []; is_auth = false }

-- What is found; it is a login if `is_auth` says so. `none` is a panic.
unfoldable pub parse_mongo_command : Bytes → Option Sasl
parse_mongo_command doc = bson_document note_command doc no_sasl

-- The document of the command, or nothing where the message is passed over.
unfoldable pub command_doc : ℕ → Bytes → Option Bytes
command_doc op_code body =
    if op_code == 2004
    then if ltb (length body) 12
      then none
      else (let end : ℕ = name_end body 4 (length body) in
          if ltb (length body) (end + 9) then none else some (drop (end + 1 + 8) body))
    else if op_code == 2013
    then if ltb (length body) 5 then none else some (drop 5 body)
    else none

-- {ok: 0, errmsg: …}
unfoldable pub build_bson_auth_fail : Bytes → Bytes
build_bson_auth_fail errmsg =
    let err_len : ℕ = length errmsg + 1 in
    let total : ℕ = 4 + (1 + 3 + 4) + (1 + 7 + 4 + err_len) + 1 in
    put_le32 total
    ++ 0x10 ∷ codes "ok"
    ++ 0 ∷ 0 ∷ 0 ∷ 0 ∷ 0 ∷ 0x02 ∷ codes "errmsg"
    ++ 0 ∷ put_le32 err_len
    ++ errmsg
    ++ 0 ∷ 0 ∷ []

unfoldable pub build_mongo_reply : Bytes → Bytes
build_mongo_reply errmsg =
    let doc : Bytes = build_bson_auth_fail errmsg in
    put_le32 (16 + length doc) ++ put_le32 0 ++ put_le32 0 ++ put_le32 1 ++ doc

-- The reply as an OP_MSG, which names the request it answers.
unfoldable pub mongo_msg : Bytes → ℕ → Bytes
mongo_msg msg req_id =
    put_le32 (length msg + 5)
    ++ put_le32 0
    ++ put_le32 req_id
    ++ put_le32 2013
    ++ 0 ∷ 0 ∷ 0 ∷ 0 ∷ 0 ∷ drop 16 msg

unfoldable pub write_mongo_msg : Bytes → ℕ → ℕ → (ℕ → List Action) → List Action
write_mongo_msg msg req_id w next =
    if ltb (length msg) 16 then next w else reply (mongo_msg msg req_id) w next

-- if credCount < credsPerConnLimit { rec(c) }, and what follows
abbrev pub record_sasl : ℕ → Sasl → List Action → List Action
record_sasl count found next =
    if ltb count creds_per_conn_limit
    then recorded
        record { username = found.user; password = []; extra = scram found.cmd found.rnonce }
      ∷ next
    else next

-- A command; `next` is the loop with the writes left and the count.
unfoldable pub mongo_command : Option Sasl → ℕ → ℕ → ℕ → (ℕ → ℕ → List Action) → List Action
mongo_command none req_id w count next = []
mongo_command (some found) req_id w count next =
    if found.is_auth
    then record_sasl count found (
        write_mongo_msg (build_mongo_reply (codes "Authentication failed")) req_id w
          (λ w'. next w' (count + 1)))
    else next w count

unfoldable pub mongo_body : Option Bytes → ℕ → ℕ → ℕ → (ℕ → ℕ → List Action) → List Action
mongo_body none req_id w count next = next w count
mongo_body (some doc) req_id w count next =
    mongo_command (parse_mongo_command doc) req_id w count next

-- What follows a header whose numbers are read; out of range is a panic, `none`.
unfoldable pub mongo_header :
    Option ℕ → Option ℕ → Option ℕ → Bytes → ℕ → ℕ → (Bytes → ℕ → ℕ → List Action) → List Action
mongo_header (some msg_len) (some req_id) (some op_code) s w count next =
    if ltb msg_len 16 || ltb 1048576 msg_len
    then []
    else with_read (read_full (msg_len - 16) s)
        (λ body rest. mongo_body (command_doc op_code body) req_id w count (next rest))
mongo_header _ _ _ s w count next = []

-- Each message has 16 bytes at least, so more rounds of fuel than bytes are enough.
unfoldable pub mongo_loop : ℕ → ℕ → ℕ → Bytes → List Action
mongo_loop zero w count input = []
mongo_loop (suc f) w count input = with_read (read_full 16 input) (λ hdr s.
    mongo_header (le32 hdr) (le32 (drop 4 hdr)) (le32 (drop 12 hdr)) s w count
      (λ rest w' count'. mongo_loop f w' count' rest))

unfoldable pub handle_mongodb : ℕ → Bytes → List Action
handle_mongodb w input = mongo_loop (suc (length input)) w 0 input
