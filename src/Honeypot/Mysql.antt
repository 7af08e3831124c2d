-- ===== src/Honeypot/Mysql.antt =====
-- internal/honeypot/mysql.go.
use Prim.Native.Nat.{bit_and}
use vps_safe_dashboard.Prelude.{
  ℕ, ◌+◌, ◌*◌, ◌/◌, ◌%◌, ◌||◌, List, [], ◌∷◌, ◌++◌, Bytes, Option, some, codes, ltb, leb, ◌==◌,
  if◌then◌else◌, length, take, drop,
}
use vps_safe_dashboard.Config.HostPort.{cut}
use vps_safe_dashboard.Honeypot.Session.{
  Action, recorded, sha1_hash, reply, reply_ignored, read_full, with_read,
}
use vps_safe_dashboard.Honeypot.Wire.{zeros, le32, put_le16, put_le32, hex}

abbrev pub salt : Bytes
salt = codes "FixedSrvSalt00112233"

abbrev pub greeting : Bytes
greeting =
    10 ∷ codes "8.0.35"
    ++ 0 ∷ put_le32 0xDEADBEEF
    ++ take 8 salt
    ++ 0 ∷ 0x00 ∷ 0xF7 ∷ 45 ∷ 0x02 ∷ 0x00 ∷ 0x77 ∷ 0x77 ∷ 21 ∷ zeros 10
    ++ drop 8 salt
    ++ 0 ∷ codes "mysql_native_password"
    ++ 0 ∷ []

-- Three bytes of length, the number of the packet, and at most 0xFFFFFF bytes of the payload.
unfoldable pub mysql_packet : ℕ → Bytes → Bytes
mysql_packet seq payload =
    let sent : Bytes = take 0xFFFFFF payload in
    (length sent % 256) ∷ (length sent / 256 % 256) ∷ (length sent / 65536 % 256) ∷ seq ∷ sent

unfoldable pub err_packet : Bytes → Bytes
err_packet user =
    0xFF ∷ put_le16 1045
    ++ b'#' ∷ codes "28000"
    ++ codes "Access denied for user '"
    ++ user
    ++ codes "'@'host' (using password: YES)"

-- The bytes of the answer to the salt, if all of them are there.
unfoldable pub auth_response : ℕ → Bytes → Bytes
auth_response caps [] = []
auth_response caps (al ∷ s) =
    if bit_and caps 0x8000 == 0 then [] else if leb al (length s) then hex (take al s) else []

abbrev pub record_hash : Bytes → Bytes → List Action → List Action
record_hash [] [] next = next
record_hash (c ∷ user) pass next =
    recorded record { username = c ∷ user; password = pass; extra = sha1_hash } ∷ next
record_hash [] (c ∷ pass) next =
    recorded record { username = []; password = c ∷ pass; extra = sha1_hash } ∷ next

-- What stands behind the first 32 bytes of the response: the user up to a zero, and the answer.
unfoldable pub mysql_login : Option ℕ → Option (Bytes × Bytes) → ℕ → List Action
mysql_login (some caps) (some (user, s)) w =
    record_hash user (auth_response caps s)
      (reply_ignored (mysql_packet 2 (err_packet user)) w (λ w'. []))
mysql_login _ _ w = []

unfoldable pub mysql_payload : Bytes → ℕ → List Action
mysql_payload payload w =
    if ltb (length payload) 32 then [] else mysql_login (le32 payload) (cut 0 (drop 32 payload)) w

unfoldable pub mysql_response : ℕ → Bytes → List Action
mysql_response w (a ∷ b ∷ c ∷ seq ∷ s) =
    let n : ℕ = a + b * 256 + c * 65536 in
    if ltb n 4 || ltb 1048576 n
    then []
    else with_read (read_full n s) (λ payload rest. mysql_payload payload w)
mysql_response w _ = []

unfoldable pub handle_mysql : ℕ → Bytes → List Action
handle_mysql w input = reply (mysql_packet 0 greeting) w (λ w'. mysql_response w' input)
