-- ===== src/Conn/Overrun/Total.antt =====
-- The shared counter follows the kernel's count of dropped events.
use vps_safe_dashboard.Prelude.{
  ℕ, ◌+◌, ◌-◌, ◌%◌, ◌^◌, ◌<◌, ◌≤◌, ◌≡◌, refl, ap, sym, ◌∙◌, Bool, true, false, ◌==◌, ==_iff,
  if◌then◌else◌, List, [], ◌∷◌, Option, none, some, All, arith,
}
use vps_safe_dashboard.Conn.Loop.{netlink_buffer_max}
use vps_safe_dashboard.Conn.Overrun.{
  Watch, Reading, since_last, enlarge_buffer, count_overrun, compare_drops, check_drops,
  check_overrun, check_all,
}

-- A count that is read is a uint64.
abbrev pub IsUint64 : Option ℕ → Type 0
IsUint64 none = Unit
IsUint64 (some n) = n < 2 ^ 64

-- The watch has begun, its last count and its counter `c` are of uint64, and its buffer is within the
-- limit.
pub record IsCounting (c : ℕ) (w : Watch) : Type 0 where
  pub begun : w.first ≡ false
  pub small : w.last_drops < 2 ^ 64
  pub bits : c < 2 ^ 64
  pub counter : w.counter ≡ some c
  pub within : w.buf_size ≤ netlink_buffer_max

-- The counter after the kernel's count went from `last` to `drops`.
abbrev pub advanced : ℕ → ℕ → ℕ → ℕ
advanced c drops last = (c + drops + 2 ^ 64 - last) % 2 ^ 64

abbrev latest : ℕ → Option ℕ → ℕ
latest n none = n
latest n (some drops) = drops

-- The last of the counts that could be read, or `n` where there is none.
unfoldable pub last_read : ℕ → List Reading → ℕ
last_read n [] = n
last_read n (r ∷ rs) = last_read (latest n r.drops) rs

enlarge_buffer-IsCounting :
    (r : Reading) (c : ℕ) (w : Watch)
    → IsCounting c w
    → IsCounting c (enlarge_buffer r w) × ((enlarge_buffer r w).last_drops ≡ w.last_drops)
unfolding enlarge_buffer
enlarge_buffer-IsCounting r c w i = (
  record {
    begun = ground (arith, i.begun);
    small = ground (arith, i.small);
    bits = i.bits;
    counter = ground (arith, i.counter);
    within = ground (arith, i.within);
  },
  ground arith,
)

count_overrun-IsCounting :
    (r : Reading) (c diff : ℕ) (w : Watch)
    → IsCounting c w
    → IsCounting ((c + diff) % 2 ^ 64) (count_overrun r diff w)
unfolding count_overrun
count_overrun-IsCounting r c diff w i = record {
  begun = i.begun;
  small = i.small;
  bits = omega arith;
  counter = rw (i.counter);
  within = i.within;
}

same_counter : (c d : ℕ) (w : Watch) → c ≡ d → IsCounting c w → IsCounting d w
same_counter c d w e i = rw e at i

since_last-zero :
    (c drops last : ℕ)
    → c < 2 ^ 64
    → last < 2 ^ 64
    → drops < 2 ^ 64
    → since_last drops last ≡ 0
    → c ≡ advanced c drops last
since_last-zero c drops last h k j e = omega arith

advanced_since :
    (c drops last : ℕ)
    → last < 2 ^ 64
    → (c + since_last drops last) % 2 ^ 64 ≡ advanced c drops last
advanced_since c drops last h = omega arith

abbrev Counted : ℕ → ℕ → Watch → Type 0
Counted d drops w = IsCounting d w × (w.last_drops ≡ drops)

choice-Counted :
    (d drops : ℕ) (begins still : Bool) (x y z : Watch)
    → begins ≡ false
    → (still ≡ true → Counted d drops y)
    → Counted d drops z
    → Counted d drops (if begins then x else if still then y else z)
choice-Counted d drops true still x y z e h k = absurd cc
choice-Counted d drops false true x y z e h k = h refl
choice-Counted d drops false false x y z e h k = k

compare_drops-IsCounting :
    (r : Reading) (c drops : ℕ) (w : Watch)
    → IsCounting c w
    → drops < 2 ^ 64
    → IsCounting (advanced c drops w.last_drops) (compare_drops r drops w)
      × ((compare_drops r drops w).last_drops ≡ drops)
unfolding compare_drops
compare_drops-IsCounting r c drops w i h =
    let seen : Watch = record w { last_drops = drops } in
    let seen_counts : IsCounting c seen = record {
      begun = i.begun;
      small = h;
      bits = i.bits;
      counter = i.counter;
      within = i.within;
    } in
    let diff = since_last drops w.last_drops in
    let (grown, last) =
      enlarge_buffer-IsCounting r (advanced c drops w.last_drops) (count_overrun r diff seen) (
        same_counter _ _ (count_overrun r diff seen) (advanced_since c drops w.last_drops i.small)
          (count_overrun-IsCounting r c diff seen seen_counts)) in
    choice-Counted (advanced c drops w.last_drops) drops w.first (diff == 0)
      (record w { first = false; last_drops = drops }) seen
      (enlarge_buffer r (count_overrun r diff seen)) i.begun
      (λ e. (
        same_counter c (advanced c drops w.last_drops) seen
            (since_last-zero c drops w.last_drops i.bits i.small h ((==_iff diff 0).0 e))
            seen_counts,
        refl,
      ))
      (grown, last ∙ unfold count_overrun in refl)

-- One check, whether it can read the count or not.
check_drops-IsCounting :
    (r : Reading) (o : Option ℕ) (c : ℕ) (w : Watch)
    → IsCounting c w
    → IsUint64 o
    → Counted
        (advanced c (latest w.last_drops o) w.last_drops)
        (latest w.last_drops o)
        (check_drops r o w)
unfolding check_drops
check_drops-IsCounting r none c w i h = (
  record {
    begun = i.begun;
    small = i.small;
    bits = omega arith;
    counter = i.counter ∙ ap (λ (n : ℕ). some n) (omega (arith, i.bits, i.small));
    within = i.within;
  },
  refl,
)
check_drops-IsCounting r (some drops) c w i h = compare_drops-IsCounting r c drops w i h

advanced_twice :
    (c a b d : ℕ) → a < 2 ^ 64 → b < 2 ^ 64 → advanced (advanced c b a) d b ≡ advanced c d a
advanced_twice c a b d h k = omega arith

-- Over any checks from a watch that has begun, where every count that is read is a uint64: the count
-- that is kept is the last that could be read, the shared counter has grown, modulo 2 ^ 64, from `c` by
-- what that one exceeds the count kept at the start, and the buffer is within its limit.
pub check_all-IsCounting :
    (rs : List Reading) (c : ℕ) (w : Watch)
    → IsCounting c w
    → All (λ r. IsUint64 r.drops) rs
    → ((check_all rs w).last_drops ≡ last_read w.last_drops rs)
      × IsCounting
          ((c + last_read w.last_drops rs + 2 ^ 64 - w.last_drops) % 2 ^ 64)
          (check_all rs w)
unfolding check_all last_read
check_all-IsCounting [] c w i h = (refl, same_counter c _ w (omega (arith, i.bits, i.small)) i)
check_all-IsCounting (r ∷ rs) c w i (h, hs) =
    let read : ℕ = latest w.last_drops r.drops in
    let checked : Watch = check_overrun r w in
    let (counts, kept) = check_drops-IsCounting r r.drops c w i h in
    let (last, total) = check_all-IsCounting rs (advanced c read w.last_drops) checked counts hs in
    let same : last_read checked.last_drops rs ≡ last_read read rs =
      ap (λ n. last_read n rs) kept in
    (
      last ∙ same,
      same_counter _ _ (check_all rs checked)
          (ap (λ n. advanced (advanced c read w.last_drops) (last_read n rs) n) kept
            ∙ advanced_twice c w.last_drops read (last_read read rs) i.small
                (rw (sym kept) (counts.small)))
          total,
    )
