-- ===== src/Honeypot/Sessions/Remote.antt =====
-- SMB, RDP and memcached record one credential of a connection.
use vps_safe_dashboard.Prelude.{
  ℕ, zero, suc, ◌==◌, ◌||◌, list_beq, nat_eq, List, [], ◌∷◌, Bytes, Option, none, some, length, ltb,
  ◌+◌,
}
use vps_safe_dashboard.Honeypot.Session.{Action, read_full}
use vps_safe_dashboard.Honeypot.Session.Limits.{
  Most, nothing-Most, reply-Most, with_read-Most, if-Most, refused-Most,
}
use vps_safe_dashboard.Text.Spaces.{trim_space, fields}
use vps_safe_dashboard.Honeypot.Smb.{
  read_smb2_body, le16_at, protocol_id, NtlmLogin, smb_login, smb_buffer, session_setup,
  smb_command, smb_header, smb_loop, handle_smb, parse_ntlmssp_auth,
}
use vps_safe_dashboard.Honeypot.Rdp.{connection_request, tpkt_body, handle_rdp}
use vps_safe_dashboard.Honeypot.Memcached.{first_command, command_line, handle_memcached}

-- What follows the bound of every step of a loop.
abbrev Once : (ℕ → List Action) → Type 0
Once next = (w : ℕ) → Most 1 (next w)

smb_login-Most :
    (o : Option (Option NtlmLogin)) (w : ℕ) (next : ℕ → List Action)
    → Once next
    → Most 1 (smb_login o w next)
unfolding smb_login
smb_login-Most none w next h = nothing-Most 1
smb_login-Most (some none) w next h = h w
smb_login-Most (some (some l)) w next h = refused-Most _ _ w

smb_buffer-Most :
    (o : Option Bytes) (w : ℕ) (next : ℕ → List Action) → Once next → Most 1 (smb_buffer o w next)
unfolding smb_buffer
smb_buffer-Most none w next h = nothing-Most 1
smb_buffer-Most (some b) w next h = smb_login-Most (parse_ntlmssp_auth b) w next h

session_setup-Most :
    (body : Bytes) (o o' : Option ℕ) (w : ℕ) (next : ℕ → List Action)
    → Once next
    → Most 1 (session_setup body o o' w next)
unfolding session_setup
session_setup-Most body none o' w next h = nothing-Most 1
session_setup-Most body (some off) none w next h = nothing-Most 1
session_setup-Most body (some off) (some ln) w next h =
    if-Most 1 (ltb off 64 || ltb (64 + length body) (off + ln)) _ _ (nothing-Most 1)
      (smb_buffer-Most _ w next h)

smb_command-Most :
    (cmd : ℕ) (msg_id s : Bytes) (w : ℕ) (next : Bytes → ℕ → List Action)
    → ((rest : Bytes) → Once (next rest))
    → Most 1 (smb_command cmd msg_id s w next)
unfolding smb_command
smb_command-Most cmd msg_id s w next h =
    if-Most 1 (cmd == 0) _ _
      (with_read-Most 1 _ _ (λ body rest. reply-Most 1 _ w (next rest) (h rest)))
      (if-Most 1 (cmd == 1) _ _
        (with_read-Most 1 (read_smb2_body 1 s) _ (λ body rest.
          if-Most 1 (ltb (length body) 24) _ _ (nothing-Most 1)
            (session_setup-Most body (le16_at 12 body) (le16_at 14 body) w (next rest) (h rest))))
        (nothing-Most 1))

smb_header-Most :
    (o : Option ℕ) (hdr s : Bytes) (w : ℕ) (next : Bytes → ℕ → List Action)
    → ((rest : Bytes) → Once (next rest))
    → Most 1 (smb_header o hdr s w next)
unfolding smb_header
smb_header-Most none hdr s w next h = nothing-Most 1
smb_header-Most (some cmd) hdr s w next h = smb_command-Most cmd _ s w next h

smb_loop-Most : (f : ℕ) (input : Bytes) → Once (λ w. smb_loop f w input)
unfolding smb_loop
smb_loop-Most zero input w = nothing-Most 1
smb_loop-Most (suc f) input w = with_read-Most 1 (read_full 4 input) _ (λ pid s.
    if-Most 1 (list_beq nat_eq pid protocol_id) _ _
      (with_read-Most 1 (read_full 60 s) _ (λ hdr t.
        smb_header-Most (le16_at 8 hdr) hdr t w (λ rest w'. smb_loop f w' rest)
          (λ rest. smb_loop-Most f rest)))
      (nothing-Most 1))

pub handle_smb-Most : (w : ℕ) (input : Bytes) → Most 1 (handle_smb w input)
unfolding handle_smb
handle_smb-Most w input = smb_loop-Most (suc (length input)) input w

connection_request-Most : (cr : Bytes) (w : ℕ) → Most 1 (connection_request cr w)
unfolding connection_request
connection_request-Most [] w = nothing-Most 1
connection_request-Most (a ∷ []) w = nothing-Most 1
connection_request-Most (a ∷ b ∷ []) w = nothing-Most 1
connection_request-Most (a ∷ b ∷ c ∷ []) w = nothing-Most 1
connection_request-Most (a ∷ b ∷ c ∷ d ∷ []) w = nothing-Most 1
connection_request-Most (a ∷ b ∷ c ∷ d ∷ e ∷ []) w = nothing-Most 1
connection_request-Most (a ∷ b ∷ c ∷ d ∷ e ∷ f ∷ []) w = nothing-Most 1
connection_request-Most (a ∷ b ∷ c ∷ d ∷ e ∷ f ∷ g ∷ variable) w =
    if-Most 1 (b == 0xE0) _ _ (refused-Most _ _ w) (nothing-Most 1)

tpkt_body-Most : (o : Option ℕ) (w : ℕ) (s : Bytes) → Most 1 (tpkt_body o w s)
unfolding tpkt_body
tpkt_body-Most none w s = nothing-Most 1
tpkt_body-Most (some n) w s =
    if-Most 1 (ltb n 11 || ltb 65536 n) _ _ (nothing-Most 1)
      (with_read-Most 1 _ _ (λ cr rest. connection_request-Most cr w))

pub handle_rdp-Most : (w : ℕ) (input : Bytes) → Most 1 (handle_rdp w input)
unfolding handle_rdp
handle_rdp-Most w [] = nothing-Most 1
handle_rdp-Most w (a ∷ []) = nothing-Most 1
handle_rdp-Most w (a ∷ b ∷ []) = nothing-Most 1
handle_rdp-Most w (a ∷ b ∷ c ∷ []) = nothing-Most 1
handle_rdp-Most w (a ∷ b ∷ c ∷ d ∷ s) =
    if-Most 1 (a == 3) _ _ (tpkt_body-Most _ w s) (nothing-Most 1)

command_line-Most : (line : Bytes) (w : ℕ) → Most 1 (command_line line w)
unfolding command_line
command_line-Most [] w = nothing-Most 1
command_line-Most (c ∷ line) w = first-Most (fields (c ∷ line))
  where
    first-Most : (words : List Bytes) → Most 1 (first_command words (c ∷ line) w)
    first-Most [] = unfold first_command in nothing-Most 1
    first-Most (cmd ∷ args) = unfold first_command in refused-Most _ _ w

pub handle_memcached-Most : (w : ℕ) (input : Bytes) → Most 1 (handle_memcached w input)
unfolding handle_memcached
handle_memcached-Most w input =
    with_read-Most 1 _ _ (λ line rest. command_line-Most (trim_space line) w)
