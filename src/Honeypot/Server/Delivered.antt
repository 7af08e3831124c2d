-- ===== src/Honeypot/Server/Delivered.antt =====
-- What reaches the credential channel: only valid text of bounded length, in order, and never more
-- than the channel holds.
use vps_safe_dashboard.Prelude.{
  ℕ, ◌+◌, ◌*◌, ◌/◌, ◌%◌, ◌^◌, ◌≤◌, ◌≡◌, refl, sym, Bool, true, ◌&&◌, Bool-cases, inl, inr, [], ◌∷◌,
  ◌++◌, Bytes, Option, none, some, ltb, leb, take, if◌then◌else◌, length, length-append, All,
  All-append, arith,
}
use vps_safe_dashboard.Utf8.{runes, encode, truncate_runes}
use vps_safe_dashboard.Utf8.RoundTrip.{length-runes-le}
use vps_safe_dashboard.Event.{CredEvent, Chan, try_send}
use vps_safe_dashboard.Honeypot.{cred_text_max}
use vps_safe_dashboard.Honeypot.CredText.{valid_cred_text, truncate_cred_text}
use vps_safe_dashboard.Honeypot.CredText.Valid.{valid-truncate_cred_text, length-truncate_cred_text}
use vps_safe_dashboard.Honeypot.Server.{
  Server, Clock, accept_conn, begin_conn, emit, is_valid_cred, stored_cred, record_cred,
  count_bytes, free_token, leave_conn,
}
use vps_safe_dashboard.Honeypot.Server.Governance.{
  World, Step, accepted, refused, begun, recorded, handled, freed, left, Reach, here, next,
}

-- Text that may be stored.
abbrev pub IsStorable : Bytes → Type 0
IsStorable s = (valid_cred_text s ≡ true) × (length s ≤ 4 * cred_text_max)

abbrev pub IsCleanCred : CredEvent → Type 0
IsCleanCred ev = IsStorable ev.username × IsStorable ev.password × IsStorable ev.extra

abbrev pub IsCleanChan : Option (Chan CredEvent) → Type 0
IsCleanChan none = Unit
IsCleanChan (some ch) = All IsCleanCred ch.queue × (length ch.queue ≤ ch.capacity)

truncate-IsStorable : (s : Bytes) → valid_cred_text s ≡ true → IsStorable (truncate_cred_text s)
truncate-IsStorable s h = (valid-truncate_cred_text s h, length-truncate_cred_text s)

stored_cred-IsCleanCred :
    (k : Clock) (proto : Bytes) (ip : ℕ) (ev : CredEvent)
    → is_valid_cred ev ≡ true
    → IsCleanCred (stored_cred k proto ip ev)
unfolding stored_cred
stored_cred-IsCleanCred k proto ip ev h = (
  truncate-IsStorable ev.username (ground arith),
  truncate-IsStorable ev.password (ground arith),
  truncate-IsStorable ev.extra (ground arith),
)

emit_chan :
    (k : Clock) (ev : CredEvent) (s : Server) (o : Option (Chan CredEvent))
    → s.cred_ch ≡ o
    → IsCleanCred ev
    → IsCleanChan o
    → IsCleanChan (emit k ev s).cred_ch
unfolding emit try_send
emit_chan k ev s none e c h = ground arith
emit_chan k ev s (some ch) e c (clean, fits) =
    elim (Bool-cases (ltb (length ch.queue) ch.capacity)) [
      | inl room ↦
          rw (e, room)
            (
              All-append IsCleanCred ch.queue (ev ∷ []) clean (c, tt),
              ground (arith, length-append ch.queue (ev ∷ [])),
            )
      | inr full ↦ rw (e, full) (clean, fits)
    ]

record_cred-IsCleanChan :
    (k : Clock) (proto : Bytes) (ip : ℕ) (ev : CredEvent) (s : Server)
    → IsCleanChan s.cred_ch
    → IsCleanChan (record_cred k proto ip ev s).cred_ch
unfolding record_cred
record_cred-IsCleanChan k proto ip ev s c = elim (Bool-cases (is_valid_cred ev)) [
  | inl valid ↦ rw valid (
      emit_chan k (stored_cred k proto ip ev) s s.cred_ch refl
        (stored_cred-IsCleanCred k proto ip ev valid) c)
  | inr invalid ↦ rw invalid c
]

cred_ch-accept_conn :
    (k : Clock) (proto : Bytes) (ip : ℕ) (s : Server)
    → (accept_conn k proto ip s).0.cred_ch ≡ s.cred_ch
unfolding accept_conn
cred_ch-accept_conn k proto ip s = ground arith

Step-IsCleanChan :
    {u v : World} → Step u v → IsCleanChan u.server.cred_ch → IsCleanChan v.server.cred_ch
Step-IsCleanChan {u} (accepted k proto ip h) c = rw (cred_ch-accept_conn k proto ip u.server) c
Step-IsCleanChan {u} (refused k proto ip h) c = rw (cred_ch-accept_conn k proto ip u.server) c
Step-IsCleanChan {u} (begun k proto ip n h) c = unfold begin_conn in c
Step-IsCleanChan {u} (recorded k proto ip ev) c = record_cred-IsCleanChan k proto ip ev u.server c
Step-IsCleanChan {u} (handled none n h) c = unfold count_bytes in c
Step-IsCleanChan {u} (handled (some b) n h) c = unfold count_bytes in c
Step-IsCleanChan {u} (freed n h) c = unfold free_token in c
Step-IsCleanChan {u} (left n h) c = unfold leave_conn in c

-- From a server whose credential channel holds only storable texts and no more than it can, in
-- whatever it reaches, that is so again, whatever the handlers have passed on.
pub Reach-IsCleanChan :
    {u v : World} → Reach u v → IsCleanChan u.server.cred_ch → IsCleanChan v.server.cred_ch
Reach-IsCleanChan here c = c
Reach-IsCleanChan (next r st) c = Step-IsCleanChan st (Reach-IsCleanChan r c)

-- The first 4096 characters of a text, which is kept as it is where it has no more.
unfoldable pub first_characters : Bytes → Bytes
first_characters s = if leb (length (runes s)) 4096 then s else encode (take 4096 (runes s))

truncate-first : (s : Bytes) → truncate_cred_text s ≡ first_characters s
unfolding truncate_cred_text truncate_runes first_characters
truncate-first s = ground (arith, length-runes-le s)

-- What is queued of a credential, by the source's comments: the time in seconds, the protocol and the
-- address of the connection, and the first characters of each text.
abbrev pub queued_cred : Clock → Bytes → ℕ → CredEvent → CredEvent
queued_cred k proto ip ev = record {
  ts = k.now / 1000000000;
  proto = proto;
  src_ip = ip;
  username = first_characters ev.username;
  password = first_characters ev.password;
  extra = first_characters ev.extra;
}

abbrev pub is_queued : CredEvent → Chan CredEvent → Bool
is_queued ev ch =
    valid_cred_text ev.username
    && valid_cred_text ev.password
    && valid_cred_text ev.extra
    && ltb (length ch.queue) ch.capacity

stored_cred-queued :
    (k : Clock) (proto : Bytes) (ip : ℕ) (ev : CredEvent)
    → stored_cred k proto ip ev ≡ queued_cred k proto ip ev
unfolding stored_cred
stored_cred-queued k proto ip ev =
    rw (truncate-first ev.username, truncate-first ev.password, truncate-first ev.extra)

-- Where there is a credential channel: a credential is queued, as the last, exactly if its three texts
-- are valid and the channel has room, and exactly then it is counted. What is queued has the time in
-- seconds, the protocol and the address of the connection, and of each text the first 4096 characters.
pub record_cred_lem :
    (k : Clock) (proto : Bytes) (ip : ℕ) (ev : CredEvent) (s : Server) (ch : Chan CredEvent)
    → s.cred_ch ≡ some ch
    → ((record_cred k proto ip ev s).cred_ch ≡ (
        if is_queued ev ch
        then some (record ch { queue = ch.queue ++ queued_cred k proto ip ev ∷ [] })
        else some ch))
      × ((record_cred k proto ip ev s).stats.cred_events
          ≡ (if is_queued ev ch then (s.stats.cred_events + 1) % 2 ^ 64 else s.stats.cred_events))
unfolding record_cred emit try_send
record_cred_lem k proto ip ev s ch e = rw (sym (stored_cred-queued k proto ip ev), e) (ground arith)
