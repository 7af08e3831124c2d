-- ===== src/Honeypot/Rdp.antt =====
-- internal/honeypot/rdp.go.
pub mod Cookie
pub mod Confirm
use vps_safe_dashboard.Prelude.{
  ℕ, zero, suc, ◌+◌, ◌-◌, Bool, true, false, ◌||◌, List, [], ◌∷◌, ◌++◌, Bytes, Option, none, some,
  codes, ltb, leb, ◌==◌, if◌then◌else◌, length, take,
}
use vps_safe_dashboard.Utf8.{runes, encode}
use vps_safe_dashboard.Text.Spaces.{trim_space, after_first, strip_prefix}
use vps_safe_dashboard.Honeypot.Session.{
  Action, recorded, rdp_cookie, reply_ignored, read_full, with_read, crlf,
}
use vps_safe_dashboard.Honeypot.Wire.{be16}

abbrev starts_with : Bytes → Bytes → Bool
starts_with p s = elim (strip_prefix p s) [ none ↦ false | some r ↦ true ]

-- What stands before the first occurrence, or all.
unfoldable pub before_first : Bytes → Bytes → Bytes
before_first p [] = []
before_first p (c ∷ s) =
    let later = before_first p s in if starts_with p (c ∷ s) then [] else c ∷ later

-- What stands behind the first occurrence, or all.
abbrev pub behind_first : Bytes → Bytes → Bytes
behind_first p s = elim (after_first p s) [ none ↦ s | some r ↦ r ]

-- The runes that are printable ASCII.
unfoldable pub printable_runes : List ℕ → List ℕ
printable_runes [] = []
printable_runes (r ∷ rs) =
    let kept = printable_runes rs in if ltb r 0x20 || ltb 0x7E r then kept else r ∷ kept

-- Of what stands behind the seven bytes of the request.
unfoldable pub extract_rdp_cookie : Bytes → Bytes
extract_rdp_cookie variable = take 128 (
    encode (
      printable_runes
        (runes (behind_first (codes "mstshash=") (trim_space (before_first crlf variable))))))

-- The Connection Confirm, which names the source reference of the request.
unfoldable pub connection_confirm : ℕ → ℕ → Bytes
connection_confirm s0 s1 = 3 ∷ 0 ∷ 0 ∷ 11 ∷ 0x06 ∷ 0xD0 ∷ 0x00 ∷ s0 ∷ s1 ∷ 0x00 ∷ 0x00 ∷ []

unfoldable pub connection_request : Bytes → ℕ → List Action
connection_request (li ∷ typ ∷ d0 ∷ d1 ∷ s0 ∷ s1 ∷ class ∷ variable) w =
    if typ == 0xE0
    then recorded
        record { username = []; password = []; extra = rdp_cookie (extract_rdp_cookie variable) }
      ∷ reply_ignored (connection_confirm s0 s1) w (λ w'. [])
    else []
connection_request _ w = []

unfoldable pub tpkt_body : Option ℕ → ℕ → Bytes → List Action
tpkt_body none w s = []
tpkt_body (some n) w s =
    if ltb n 11 || ltb 65536 n
    then []
    else with_read (read_full (n - 4) s) (λ cr rest. connection_request cr w)

unfoldable pub handle_rdp : ℕ → Bytes → List Action
handle_rdp w (version ∷ reserved ∷ a ∷ b ∷ s) =
    if version == 3 then tpkt_body (be16 (a ∷ b ∷ [])) w s else []
handle_rdp w _ = []
