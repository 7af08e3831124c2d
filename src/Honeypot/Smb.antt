-- ===== src/Honeypot/Smb.antt =====
-- internal/honeypot/smb.go. Out of range is a panic, `none`.
pub mod Total
pub mod Ends
use vps_safe_dashboard.Prelude.{
  ℕ, zero, suc, ◌+◌, ◌-◌, ◌*◌, Bool, true, false, ◌&&◌, ◌||◌, not, List, [], ◌∷◌, ◌++◌, Bytes,
  Option, none, some, codes, list_beq, nat_eq, ltb, leb, ◌==◌, if◌then◌else◌, length, take, drop,
}
use vps_safe_dashboard.Honeypot.Session.{
  Action, recorded, Captured, ntlm_hash, reply, reply_ignored, read_full, with_read,
}
use vps_safe_dashboard.Honeypot.Wire.{zeros, le16, le32, put_le16, put_le32, slice, hex}
use vps_safe_dashboard.Honeypot.Bson.{le32_at}
use vps_safe_dashboard.Honeypot.Utf16.{utf16le_to_string}

abbrev pub protocol_id : Bytes
protocol_id = 0xFE ∷ codes "SMB"

unfoldable pub le16_at : ℕ → Bytes → Option ℕ
le16_at pos b = elim (slice pos (pos + 2) b) [ none ↦ none | some x ↦ le16 x ]

-- The challenge of NTLMSSP.
abbrev pub challenge : Bytes
challenge =
    codes "NTLMSSP"
    ++ 0 ∷ put_le32 2
    ++ zeros 8
    ++ put_le32 0x00088201
    ++ codes "HPCHALNG"
    ++ zeros 8
    ++ zeros 8
    ++ 6 ∷ 1 ∷ zeros 6

-- The body of the response, up to the challenge.
abbrev pub negotiate_body : Bytes
negotiate_body =
    64 ∷ 0 ∷ 0x01 ∷ 0x00 ∷ 0x10 ∷ 0x02 ∷ 0 ∷ 0 ∷ codes "1234567890ABCDEF"
    ++ zeros 4
    ++ 0x00 ∷ 0x10 ∷ 0x00 ∷ 0x00 ∷ 0x00 ∷ 0x10 ∷ 0x00 ∷ 0x00 ∷ 0x00 ∷ 0x10 ∷ 0x00 ∷ 0x00 ∷ zeros 8
    ++ zeros 8
    ++ put_le16 (64 + 62)
    ++ put_le16 (length challenge)
    ++ zeros 2

-- The header with the identifier of the request, the body and the challenge. The identifier is eight
-- bytes, which are sent as they came.
unfoldable pub build_smb2_negotiate_response : Bytes → Bytes
build_smb2_negotiate_response msg_id =
    protocol_id
    ++ 64 ∷ 0 ∷ zeros 2
    ++ zeros 4
    ++ zeros 2
    ++ 1 ∷ 0 ∷ zeros 4
    ++ zeros 4
    ++ msg_id
    ++ zeros 4
    ++ zeros 4
    ++ zeros 8
    ++ zeros 16
    ++ negotiate_body
    ++ challenge

-- The error response.
unfoldable pub smb2_error : ℕ → ℕ → Bytes
smb2_error command status =
    protocol_id
    ++ 64 ∷ 0 ∷ zeros 2
    ++ put_le32 status
    ++ put_le16 command
    ++ 1 ∷ 0 ∷ zeros 8
    ++ zeros 8
    ++ zeros 8
    ++ zeros 8
    ++ zeros 16
    ++ 9 ∷ 0 ∷ 0 ∷ 0 ∷ zeros 4

-- The offset and the length of a field.
abbrev pub pair_of : Option ℕ → Option ℕ → Option (ℕ × ℕ)
pair_of (some o) (some l) = some (o, l)
pair_of _ _ = none

abbrev pub ntlm_field : ℕ → Bytes → Option (ℕ × ℕ)
ntlm_field pos b = pair_of (le32_at (pos + 4) b) (le16_at pos b)

unfoldable pub nt_response : Bytes → ℕ → ℕ → Option Bytes
nt_response b off ln =
    if ltb 0 ln && leb (off + ln) (length b)
    then elim (slice off (off + ln) b) [ none ↦ none | some x ↦ some (hex x) ]
    else some []

pub record NtlmLogin : Type 0 where
  pub user : Bytes
  pub domain : Bytes
  pub nt_resp : Bytes

-- Without a user and without a response it is no login.
unfoldable pub ntlm_login : Option Bytes → Option Bytes → Option Bytes → Option (Option NtlmLogin)
ntlm_login (some user) (some domain) (some resp) =
    if list_beq nat_eq user [] && list_beq nat_eq resp []
    then some none
    else some (some record { user = user; domain = domain; nt_resp = resp })
ntlm_login _ _ _ = none

unfoldable pub ntlm_values :
    Bytes → Option (ℕ × ℕ) → Option (ℕ × ℕ) → Option (ℕ × ℕ) → Option (Option NtlmLogin)
ntlm_values b (some (dom_off, dom_len)) (some (user_off, user_len)) (some (nt_off, nt_len)) =
    ntlm_login (utf16le_to_string b user_off user_len) (utf16le_to_string b dom_off dom_len)
      (nt_response b nt_off nt_len)
ntlm_values b _ _ _ = none

unfoldable pub ntlm_message : Bytes → Option ℕ → Option (Option NtlmLogin)
ntlm_message b none = none
ntlm_message b (some msg_type) =
    if not (msg_type == 3)
    then some none
    else if ltb (length b) 64
    then some none
    else ntlm_values b (ntlm_field 28 b) (ntlm_field 36 b) (ntlm_field 20 b)

-- `some none` is a message that is not an AUTH.
unfoldable pub parse_ntlmssp_auth : Bytes → Option (Option NtlmLogin)
parse_ntlmssp_auth b =
    if ltb (length b) 12 || not (list_beq nat_eq (take 8 b) (codes "NTLMSSP" ++ 0 ∷ []))
    then some none
    else ntlm_message b (le32_at 8 b)

-- The body of NEGOTIATE: 28 bytes, behind which at most 64 dialects are passed over.
unfoldable pub negotiate_rest : Bytes → Option ℕ → Bytes → Option (Bytes × Bytes)
negotiate_rest body none s = none
negotiate_rest body (some count) s =
    if ltb 64 count
    then none
    else elim (read_full (count * 2) s) [ none ↦ none | some (dialects, rest) ↦ some (body, rest) ]

-- The body of SESSION_SETUP: 24 bytes and the buffer whose length they have.
unfoldable pub setup_rest : Bytes → Option ℕ → Bytes → Option (Bytes × Bytes)
setup_rest fixed none s = none
setup_rest fixed (some sbl) s =
    if ltb 65536 sbl
    then none
    else elim (read_full sbl s) [ none ↦ none | some (more, rest) ↦ some (fixed ++ more, rest) ]

-- The body of a message of one of these two commands; no other is read.
unfoldable pub read_smb2_body : ℕ → Bytes → Option (Bytes × Bytes)
read_smb2_body cmd s =
    if cmd == 0
    then elim (read_full 28 s) [
      | none ↦ none
      | some (body, t) ↦ negotiate_rest body (le16_at 2 body) t
    ]
    else elim (read_full 24 s) [
      | none ↦ none
      | some (fixed, t) ↦ setup_rest fixed (le16_at 14 fixed) t
    ]

abbrev pub qualified : Bytes → Bytes → Bytes
qualified [] user = user
qualified (c ∷ domain) user = c ∷ domain ++ b'\\' ∷ user

unfoldable pub ntlm_captured : NtlmLogin → Captured
ntlm_captured l = record {
  username = qualified l.domain l.user;
  password = l.nt_resp;
  extra = ntlm_hash;
}

-- What is done about the buffer; `next` is the loop.
unfoldable pub smb_login : Option (Option NtlmLogin) → ℕ → (ℕ → List Action) → List Action
smb_login none w next = []
smb_login (some none) w next = next w
smb_login (some (some l)) w next =
    recorded (ntlm_captured l) ∷ reply_ignored (smb2_error 1 0xC000006D) w (λ w'. [])

unfoldable pub smb_buffer : Option Bytes → ℕ → (ℕ → List Action) → List Action
smb_buffer none w next = []
smb_buffer (some ntlm) w next = smb_login (parse_ntlmssp_auth ntlm) w next

-- The offset of the buffer counts from the header on, which has 64 bytes.
unfoldable pub session_setup : Bytes → Option ℕ → Option ℕ → ℕ → (ℕ → List Action) → List Action
session_setup body (some sec_off) (some sec_len) w next =
    if ltb sec_off 64 || ltb (64 + length body) (sec_off + sec_len)
    then []
    else smb_buffer (slice (sec_off - 64) (sec_off - 64 + sec_len) body) w next
session_setup body _ _ w next = []

unfoldable pub smb_command : ℕ → Bytes → Bytes → ℕ → (Bytes → ℕ → List Action) → List Action
smb_command cmd msg_id s w next =
    if cmd == 0
    then with_read (read_smb2_body 0 s)
        (λ body rest. reply (build_smb2_negotiate_response msg_id) w (next rest))
    else if cmd == 1
    then with_read (read_smb2_body 1 s) (λ body rest.
      if ltb (length body) 24
      then []
      else session_setup body (le16_at 12 body) (le16_at 14 body) w (next rest))
    else []

unfoldable pub smb_header : Option ℕ → Bytes → Bytes → ℕ → (Bytes → ℕ → List Action) → List Action
smb_header none hdr s w next = []
smb_header (some cmd) hdr s w next = smb_command cmd (take 8 (drop 20 hdr)) s w next

-- Each message has 64 bytes at least, so more rounds of fuel than bytes are enough.
unfoldable pub smb_loop : ℕ → ℕ → Bytes → List Action
smb_loop zero w input = []
smb_loop (suc f) w input = with_read (read_full 4 input) (λ pid s.
    if list_beq nat_eq pid protocol_id
    then with_read (read_full 60 s)
        (λ hdr t. smb_header (le16_at 8 hdr) hdr t w (λ rest w'. smb_loop f w' rest))
    else [])

unfoldable pub handle_smb : ℕ → Bytes → List Action
handle_smb w input = smb_loop (suc (length input)) w input
