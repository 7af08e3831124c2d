-- ===== src/Honeypot/Protocols/Tables.antt =====
-- The tables of the protocols agree.
use vps_safe_dashboard.Prelude.{
  ◌≡◌, refl, sym, ◌∙◌, Bool, true, false, List, [], ◌∷◌, none, some, Bytes, list_beq, nat_eq,
  bytes_eq, any, map, arith,
}
use vps_safe_dashboard.Prelude.Assoc.{Assoc, lookup}
use vps_safe_dashboard.Honeypot.Protocols.{
  proto_handlers, proto_kinds, is_valid_proto, default_listen,
}

-- A key is in a map.
abbrev pub has : {V : Type 0} → Bytes → Assoc Bytes V → Bool
has p m = elim (lookup p m) [ none ↦ false | some v ↦ true ]

abbrev keys : {V : Type 0} → Assoc Bytes V → List Bytes
keys m = map (λ e. e.0) m

has_lem :
    {V : Type 0} (p : Bytes) (m : Assoc Bytes V) → has p m ≡ any (λ j. list_beq nat_eq j p) (keys m)
unfolding lookup
has_lem p [] = refl
has_lem p ((j, v) ∷ m) = ground (arith, has_lem p m)

-- What holds of a test of names.
handlers_keys : (t : Bytes → Bool) → any t (keys proto_handlers) ≡ any t (keys proto_kinds)
handlers_keys t = ground arith

listen_keys : (t : Bytes → Bool) → any t (keys default_listen) ≡ any t (keys proto_kinds)
listen_keys t = ground arith

-- A name is of a valid protocol exactly if it has a handler, and exactly if it has a default address.
pub is_valid_proto_lem :
    (p : Bytes)
    → (is_valid_proto p ≡ has p proto_handlers) × (is_valid_proto p ≡ has p default_listen)
unfolding is_valid_proto
is_valid_proto_lem p = (
  has_lem p proto_kinds
      ∙ sym (handlers_keys (λ j. list_beq nat_eq j p))
      ∙ sym (has_lem p proto_handlers),
  has_lem p proto_kinds
      ∙ sym (listen_keys (λ j. list_beq nat_eq j p))
      ∙ sym (has_lem p default_listen),
)
