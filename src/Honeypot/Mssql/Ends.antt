-- ===== src/Honeypot/Mssql/Ends.antt =====
-- The fuel of the loop over packets is enough.
use vps_safe_dashboard.Prelude.{
  ℕ, zero, suc, ◌-◌, ◌<◌, ◌≡◌, refl, ap, ◌∙◌, sym, ◌||◌, List, [], ◌∷◌, Bytes, Option, none, some,
  ltb, length, arith,
}
use vps_safe_dashboard.Honeypot.Session.{Action, read_full, with_read}
use vps_safe_dashboard.Honeypot.Session.Rounds.{
  Leaves, Agree, with_read-Agree, Leaves-map, Leaves-weaken, if_Leaves, read_full-Leaves, rounds,
  rounds_enough,
}
use vps_safe_dashboard.Honeypot.Wire.{be16}
use vps_safe_dashboard.Honeypot.Mssql.{
  tds_payload, read_tds_packet, tds_message, mssql_loop, handle_mssql,
}

tds_payload-Leaves :
    (typ : ℕ) (o : Option ℕ) (s : Bytes) → Leaves (suc (length s)) (tds_payload typ o s)
unfolding tds_payload
tds_payload-Leaves typ none s = tt
tds_payload-Leaves typ (some n) s =
    if_Leaves (suc (length s)) (ltb n 8 || ltb 65536 n) _ _ tt
      (Leaves-map (◌∷◌ typ) (suc (length s)) (read_full (n - 8) s) (read_full-Leaves (n - 8) s))

read_tds_packet-Leaves : (input : Bytes) → Leaves (length input) (read_tds_packet input)
unfolding read_tds_packet
read_tds_packet-Leaves [] = tt
read_tds_packet-Leaves (t ∷ []) = tt
read_tds_packet-Leaves (t ∷ u ∷ []) = tt
read_tds_packet-Leaves (t ∷ u ∷ a ∷ []) = tt
read_tds_packet-Leaves (t ∷ u ∷ a ∷ b ∷ []) = tt
read_tds_packet-Leaves (t ∷ u ∷ a ∷ b ∷ c ∷ []) = tt
read_tds_packet-Leaves (t ∷ u ∷ a ∷ b ∷ c ∷ d ∷ []) = tt
read_tds_packet-Leaves (t ∷ u ∷ a ∷ b ∷ c ∷ d ∷ e ∷ []) = tt
read_tds_packet-Leaves (t ∷ u ∷ a ∷ b ∷ c ∷ d ∷ e ∷ f ∷ s) =
    Leaves-weaken (suc (length s)) _ (tds_payload t (be16 (a ∷ b ∷ [])) s) (omega arith)
      (tds_payload-Leaves t (be16 (a ∷ b ∷ [])) s)

abbrev packet_round : Bytes → ℕ → (Bytes → ℕ → List Action) → List Action
packet_round input w next =
    with_read (read_tds_packet input) (λ pkt rest. tds_message pkt w (next rest))

packet_round-Agree :
    (input : Bytes) (w : ℕ) (next next' : Bytes → ℕ → List Action)
    → Agree (length input) next next'
    → packet_round input w next ≡ packet_round input w next'
packet_round-Agree input w next next' h =
    with_read-Agree (length input) (read_tds_packet input) _ _ (read_tds_packet-Leaves input)
      (λ pkt rest shorter. ap (tds_message pkt w) (h rest shorter))

as_rounds :
    (f w : ℕ) (input : Bytes)
    → mssql_loop f w input ≡ rounds packet_round packet_round-Agree f input w
unfolding mssql_loop rounds
as_rounds zero w input = refl
as_rounds (suc f) w input = λ i. packet_round input w (λ rest w'. as_rounds f w' rest i)

pub mssql_loop_enough :
    (f w : ℕ) (input : Bytes) → length input < f → mssql_loop f w input ≡ handle_mssql w input
unfolding handle_mssql
mssql_loop_enough f w input h =
    as_rounds f w input
    ∙ (λ i.
        rounds_enough packet_round packet_round-Agree f (suc (length input)) input h (omega arith) i
          w)
    ∙ sym (as_rounds (suc (length input)) w input)
