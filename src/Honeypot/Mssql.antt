-- ===== src/Honeypot/Mssql.antt =====
-- internal/honeypot/mssql.go.
pub mod Obfuscation
pub mod Fields
pub mod Login
pub mod Captures
pub mod Ends
pub mod Total
use Prim.Native.Nat.{bit_and, bit_or, bit_xor}
use vps_safe_dashboard.Prelude.{
  ℕ, zero, suc, ◌+◌, ◌-◌, ◌*◌, ◌/◌, ◌%◌, Bool, true, false, ◌&&◌, ◌||◌, not, List, [], ◌∷◌, ◌++◌,
  Bytes, Option, none, some, codes, ltb, ◌==◌, if◌then◌else◌, map, length, take, drop,
}
use vps_safe_dashboard.Utf8.{encode}
use vps_safe_dashboard.Honeypot.Session.{
  Action, recorded, Captured, tds_clear, tds_hex, reply, reply_ignored, read_full, with_read,
}
use vps_safe_dashboard.Honeypot.Wire.{zeros, be16, put_be16, put_be32, slice, hex}
use vps_safe_dashboard.Honeypot.Utf16.{utf16_decode, utf16le_to_string}

-- The type byte and the payload of a packet, and what follows it.
unfoldable pub tds_payload : ℕ → Option ℕ → Bytes → Option (Bytes × Bytes)
tds_payload typ none s = none
tds_payload typ (some n) s =
    if ltb n 8 || ltb 65536 n
    then none
    else elim (read_full (n - 8) s) [ none ↦ none | some (x, rest) ↦ some (typ ∷ x, rest) ]

unfoldable pub read_tds_packet : Bytes → Option (Bytes × Bytes)
read_tds_packet (t ∷ status ∷ a ∷ b ∷ c ∷ d ∷ e ∷ f ∷ s) = tds_payload t (be16 (a ∷ b ∷ [])) s
read_tds_packet _ = none

-- The packet that is written; its length wraps in 16 bits.
unfoldable pub tds_packet : ℕ → Bytes → Bytes
tds_packet typ payload = typ ∷ 1 ∷ put_be16 (8 + length payload) ++ 0 ∷ 0 ∷ 1 ∷ 0 ∷ payload

-- VERSION, ENCRYPTION and the end in the table of options, their data from offset 16 on, and zeros up to
-- a multiple of four.
abbrev pub prelogin_options : Bytes
prelogin_options =
    0x00 ∷ put_be16 16
    ++ 0x00 ∷ 0x08 ∷ 0x01 ∷ put_be16 (16 + 8)
    ++ 0x00 ∷ 0x01 ∷ 0x00 ∷ 0x00 ∷ 0x00 ∷ 0x00 ∷ 0x00 ∷ 0x00 ∷ 0x07 ∷ 0x04 ∷ 0x00 ∷ 0x00 ∷ 0x00
      ∷ 0x00 ∷ 0x00 ∷ 0x00 ∷ 0x00 ∷ []

unfoldable pub build_prelogin_response : Bytes
build_prelogin_response = prelogin_options ++ zeros ((4 - length prelogin_options % 4) % 4)

-- What a field of the table leaves of the user name and of the obfuscated password, which is nil while
-- it is empty.
unfoldable pub login7_value : ℕ → Bytes → Bytes × Bytes → Option (Bytes × Bytes)
login7_value (suc zero) val (user, obf) = elim (utf16le_to_string val 0 (length val)) [
  | none ↦ none
  | some u ↦ some (u, obf)
]
login7_value (suc (suc zero)) val (user, obf) = some (user, val)
login7_value _ val found = some found

unfoldable pub login7_field :
    Bytes → ℕ → Option ℕ → Option ℕ → Bytes × Bytes → Option (Bytes × Bytes)
login7_field login i (some off) (some ln) found =
    if ln == 0 || ltb (length login) (off + ln)
    then some found
    else elim (slice off (off + ln) login) [ none ↦ none | some val ↦ login7_value i val found ]
login7_field login i _ _ found = none

unfoldable pub number_at : ℕ → Bytes → Option ℕ
number_at lo login = elim (slice lo (lo + 2) login) [ none ↦ none | some b ↦ be16 b ]

-- The last `k` of the five fields; `none` is a panic.
unfoldable pub login7_fields : ℕ → Bytes → Bytes × Bytes → Option (Bytes × Bytes)
login7_fields zero login found = some found
login7_fields (suc k) login found =
    let i : ℕ = 5 - suc k in
    let base : ℕ = 36 + i * 4 in
    if ltb (length login) (base + 4)
    then some found
    else elim (login7_field login i (number_at base login) (number_at (base + 2) login) found) [
      | none ↦ none
      | some found' ↦ login7_fields k login found'
    ]

abbrev pub accepted : Option (Bytes × Bytes) → Option (Option (Bytes × Bytes))
accepted none = none
accepted (some ([], [])) = some none
accepted (some ((c ∷ user), obf)) = some (some (c ∷ user, obf))
accepted (some ([], (c ∷ obf))) = some (some ([], c ∷ obf))

-- `none` is a panic, `some none` a message that is not accepted.
unfoldable pub parse_login7 : Bytes → Option (Option (Bytes × Bytes))
parse_login7 login =
    if ltb (length login) 36
    then some none
    else if ltb (length login) (36 + 12)
    then some none
    else accepted (login7_fields 5 login ([], []))

-- The inverse of the exchange of the half bytes before the XOR.
unfoldable pub clear_byte : ℕ → ℕ
clear_byte b =
    let x : ℕ = bit_xor b 0xA5 in bit_or (bit_and x 0x0F * 16 % 256) (bit_and x 0xF0 / 16)

abbrev pub is_odd_unit : ℕ → Bool
is_odd_unit code = ltb code 0x20 && not (code == b'\t') || ltb 0x7E code

-- The code units, all of them printable.
unfoldable pub clear_units : Bytes → Option (List ℕ)
clear_units (a ∷ b ∷ raw) =
    let later = clear_units raw in
    let code : ℕ = b * 256 + a in
    if is_odd_unit code then none else elim later [ none ↦ none | some us ↦ some (code ∷ us) ]
clear_units _ = some []

unfoldable pub deobfuscate_tds_password : Bytes → Option Bytes
deobfuscate_tds_password obf =
    if length obf == 0 || not (length obf % 2 == 0)
    then none
    else elim (clear_units (map clear_byte obf)) [
      | none ↦ none
      | some us ↦ some (encode (utf16_decode us))
    ]

-- The ERROR token 18456; the user name is cut to 256 bytes.
unfoldable pub login_failed_token : Bytes → Bytes
login_failed_token user =
    let msg : Bytes =
      codes "Login failed for user '"
      ++ take 256 user
      ++ codes "'. (Microsoft SQL Server, Error: 18456)" in
    0xAA ∷ put_be16 (4 + 1 + 1 + length msg + 1) ++ put_be32 18456 ++ 1 ∷ 14 ∷ msg ++ 0 ∷ []

abbrev pub tds_captured : Bytes → Bytes → Option Bytes → Captured
tds_captured user obf (some pass) = record { username = user; password = pass; extra = tds_clear }
tds_captured user obf none = record { username = user; password = hex obf; extra = tds_hex }

unfoldable pub tds_credential : Bytes → Bytes → Captured
tds_credential user obf = tds_captured user obf (deobfuscate_tds_password obf)

-- What is done about LOGIN7; `next` is the loop.
unfoldable pub login7 : Option (Option (Bytes × Bytes)) → ℕ → (ℕ → List Action) → List Action
login7 none w next = []
login7 (some none) w next = next w
login7 (some (some (user, obf))) w next =
    recorded (tds_credential user obf)
    ∷ reply_ignored (tds_packet 4 (login_failed_token user)) w (λ w'. [])

unfoldable pub tds_message : Bytes → ℕ → (ℕ → List Action) → List Action
tds_message [] w next = next w
tds_message (t ∷ login) w next =
    if t == 0x12
    then reply (tds_packet 4 build_prelogin_response) w next
    else if t == 0x10
    then login7 (parse_login7 login) w next
    else if t == 0x02
    then []
    else next w

-- Each packet has eight bytes at least, so more rounds of fuel than bytes are enough.
unfoldable pub mssql_loop : ℕ → ℕ → Bytes → List Action
mssql_loop zero w input = []
mssql_loop (suc f) w input =
    with_read (read_tds_packet input) (λ pkt rest. tds_message pkt w (λ w'. mssql_loop f w' rest))

unfoldable pub handle_mssql : ℕ → Bytes → List Action
handle_mssql w input = mssql_loop (suc (length input)) w input
