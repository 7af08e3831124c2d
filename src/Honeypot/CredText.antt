-- ===== src/Honeypot/CredText.antt =====
-- internal/honeypot/honeypot.go: validCredText and truncateCredText.
pub mod Valid
use vps_safe_dashboard.Prelude.{
  ℕ, Bool, true, false, ◌&&◌, ◌||◌, not, [], ◌∷◌, Bytes, ltb, leb, ◌==◌, if◌then◌else◌, length,
}
use vps_safe_dashboard.Utf8.{truncate_runes}
use vps_safe_dashboard.Honeypot.{cred_text_max}

abbrev pub is_control : ℕ → Bool
is_control b = (ltb b 0x20 && not (b == b'\t')) || b == 0x7F

unfoldable pub valid_cred_text : Bytes → Bool
valid_cred_text [] = true
valid_cred_text (b ∷ s) = if is_control b then false else valid_cred_text s

unfoldable pub truncate_cred_text : Bytes → Bytes
truncate_cred_text s = if leb (length s) cred_text_max then s else truncate_runes cred_text_max s
