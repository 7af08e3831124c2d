-- ===== src/Honeypot/Server/Governance.antt =====
-- Connections as interleaved steps. No step changes both the semaphore and Active, and none reads one
-- of them twice, so that nothing is lost by taking what a step does as a whole.
use vps_safe_dashboard.Prelude.{
  ℕ, suc, ◌+◌, ◌%◌, ◌^◌, ◌≤◌, ◌<◌, ◌≡◌, refl, ◌∙◌, true, false, Bytes, Option, none, some, arith,
}
use vps_safe_dashboard.Event.{CredEvent, SystemEvent, Chan}
use vps_safe_dashboard.Honeypot.{max_conns}
use vps_safe_dashboard.Honeypot.Server.{
  Server, Message, Clock, accept_conn, begin_conn, emit, record_cred, stored_cred, count_bytes,
  free_token, leave_conn, new_server,
}

-- `waiting` connections are accepted and not counted as active yet; `running` ones are, and are with
-- their handler; those that are `leaving` have left it and hold their token still; those that are
-- `closing` have given it back and are counted as active still.
pub record World : Type 0 where
  pub server : Server
  pub waiting : ℕ
  pub running : ℕ
  pub leaving : ℕ
  pub closing : ℕ

pub data Step (w : World) : World → Type 0 where
  accepted :
      (k : Clock) (proto : Bytes) (ip : ℕ)
      → (accept_conn k proto ip w.server).1 ≡ true
      → Step w (record w { server = (accept_conn k proto ip w.server).0; waiting = w.waiting + 1 })
  refused :
      (k : Clock) (proto : Bytes) (ip : ℕ)
      → (accept_conn k proto ip w.server).1 ≡ false
      → Step w (record w { server = (accept_conn k proto ip w.server).0 })
  begun :
      (k : Clock) (proto : Bytes) (ip n : ℕ)
      → w.waiting ≡ suc n
      → Step w (record w {
        server = begin_conn k proto ip w.server;
        waiting = n;
        running = w.running + 1;
      })
  recorded :
      (k : Clock) (proto : Bytes) (ip : ℕ) (ev : CredEvent)
      → Step w (record w { server = record_cred k proto ip ev w.server })
  handled :
      (bytes : Option ℕ) (n : ℕ)
      → w.running ≡ suc n
      → Step w
          (record w { server = count_bytes bytes w.server; running = n; leaving = w.leaving + 1 })
  freed :
      (n : ℕ)
      → w.leaving ≡ suc n
      → Step w (record w { server = free_token w.server; leaving = n; closing = w.closing + 1 })
  left :
      (n : ℕ) → w.closing ≡ suc n → Step w (record w { server = leave_conn w.server; closing = n })

pub data Reach (w : World) : World → Type 0 where
  here : Reach w w
  next : {u v : World} → Reach w u → Step u v → Reach w v

pub record IsGoverned (w : World) : Type 0 where
  pub tokens : w.server.sem ≡ w.waiting + w.running + w.leaving
  pub few : w.server.sem ≤ max_conns
  pub exact : w.server.stats.active ≡ (w.running + w.leaving + w.closing) % 2 ^ 64

-- What accepting does to the semaphore and to the count of active connections.
module _ (k : Clock) (proto : Bytes) (ip : ℕ) (s : Server) where
  accept_conn_accepted :
      (accept_conn k proto ip s).1 ≡ true
      → ((accept_conn k proto ip s).0.sem ≡ s.sem + 1) × (s.sem < max_conns)
  unfolding accept_conn
  accept_conn_accepted h = ground arith

  accept_conn_refused :
      (accept_conn k proto ip s).1 ≡ false → (accept_conn k proto ip s).0.sem ≡ s.sem
  unfolding accept_conn
  accept_conn_refused h = ground arith

  active-accept_conn : (accept_conn k proto ip s).0.stats.active ≡ s.stats.active
  unfolding accept_conn
  active-accept_conn = ground arith

module _ (k : Clock) (ev : CredEvent) (s : Server) where
  emit_keeps : ((emit k ev s).sem ≡ s.sem) × ((emit k ev s).stats.active ≡ s.stats.active)
  unfolding emit
  emit_keeps = ground arith

record_cred_keeps :
    (k : Clock) (proto : Bytes) (ip : ℕ) (ev : CredEvent) (s : Server)
    → ((record_cred k proto ip ev s).sem ≡ s.sem)
      × ((record_cred k proto ip ev s).stats.active ≡ s.stats.active)
unfolding record_cred
record_cred_keeps k proto ip ev s = ground (arith, emit_keeps k (stored_cred k proto ip ev) s)

Step-IsGoverned : {u v : World} → Step u v → IsGoverned u → IsGoverned v
Step-IsGoverned {u} (accepted k proto ip h) g = record {
  tokens = omega (arith, g.tokens, accept_conn_accepted k proto ip u.server h);
  few = omega (arith, g.few, accept_conn_accepted k proto ip u.server h);
  exact = active-accept_conn k proto ip u.server ∙ g.exact;
}
Step-IsGoverned {u} (refused k proto ip h) g = record {
  tokens = accept_conn_refused k proto ip u.server h ∙ g.tokens;
  few = omega (arith, g.few, accept_conn_refused k proto ip u.server h);
  exact = active-accept_conn k proto ip u.server ∙ g.exact;
}
Step-IsGoverned {u} (begun k proto ip n h) g = record {
  tokens = unfold begin_conn in omega (arith, g.tokens);
  few = unfold begin_conn in g.few;
  exact = unfold begin_conn in omega (arith, g.tokens, g.few, g.exact);
}
Step-IsGoverned {u} (recorded k proto ip ev) g = record {
  tokens = (record_cred_keeps k proto ip ev u.server).0 ∙ g.tokens;
  few = omega (arith, g.few, record_cred_keeps k proto ip ev u.server);
  exact = (record_cred_keeps k proto ip ev u.server).1 ∙ g.exact;
}
Step-IsGoverned {u} (handled none n h) g = record {
  tokens = unfold count_bytes in omega (arith, g.tokens);
  few = unfold count_bytes in g.few;
  exact = unfold count_bytes in omega (arith, g.exact);
}
Step-IsGoverned {u} (handled (some b) n h) g = record {
  tokens = unfold count_bytes in omega (arith, g.tokens);
  few = unfold count_bytes in g.few;
  exact = unfold count_bytes in omega (arith, g.exact);
}
Step-IsGoverned {u} (freed n h) g = record {
  tokens = unfold free_token in omega (arith, g.tokens);
  few = unfold free_token in omega (arith, g.few);
  exact = unfold free_token in omega (arith, g.exact);
}
Step-IsGoverned {u} (left n h) g = record {
  tokens = unfold leave_conn in g.tokens;
  few = unfold leave_conn in g.few;
  exact = unfold leave_conn in omega (arith, g.exact);
}

-- Every world that can be reached from a governed one is governed.
pub Reach-IsGoverned : {u v : World} → IsGoverned u → Reach u v → IsGoverned v
Reach-IsGoverned g here = g
Reach-IsGoverned g (next r st) = Step-IsGoverned st (Reach-IsGoverned g r)

-- A server that has just been made, with no connection.
abbrev pub start : Server → World
start s = record { server = s; waiting = 0; running = 0; leaving = 0; closing = 0 }

-- In whatever a new server reaches, by connections that come, begin, record, return from their handler,
-- give back their token and leave, each a step that others may come between: at most `max_conns` are
-- accepted and have not given back their token, and the counter Active is, modulo 2 ^ 64, the number
-- of those that have begun and have not left, with those among them that have given back their token.
pub governed :
    (cred_ch : Option (Chan CredEvent)) (sys : Option (Chan (SystemEvent Message))) (w : World)
    → Reach (start (new_server cred_ch sys)) w
    → (w.waiting + w.running + w.leaving ≤ max_conns)
      × (w.server.stats.active ≡ (w.running + w.leaving + w.closing) % 2 ^ 64)
governed cred_ch sys w r =
    let g : IsGoverned w =
      Reach-IsGoverned (record { tokens = refl; few = omega arith; exact = refl }) r in
    (omega (arith, g.tokens, g.few), g.exact)
