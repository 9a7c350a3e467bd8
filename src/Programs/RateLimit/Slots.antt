-- ===== src/Programs/RateLimit/Slots.antt =====
-- What a limiter keeps: its counters stay below the peak, and its position within the period. What a
-- hit answers.
use zwasm.Base.{
  ℕ, zero, suc, ◌+◌, ◌-◌, ◌/◌, ◌%◌, ◌^◌, ◌≤◌, ◌<◌, ◌≡◌, ◌↔◌, refl, ◌∙◌, arith, Bool, true, false,
  some, List, ltb, leb, ◌==◌, if◌then◌else◌, length, length-replicate, get_or, set, replicate, [],
  ◌∷◌, Bool-cases, inl, inr,
}
use mathlib.Core.Path.{subst}
use mathlib.Core.Option.{some-injective}
use zwasm.Base.Bits.{bit_and-lt_right}
use zwasm.Base.Slices.{length-set, get_or-set}
use zwasm.Programs.RateLimit.{
  RateLimiter, ratelimiter_init, decay, count_slot, slot_i, slot_j, ratelimiter_hit, hits,
}

pub record IsValid (peak : ℕ) (r : RateLimiter) : Type 0 where
  pub bounded : (k : ℕ) → get_or r.slots k 0 ≤ peak
  pub sized : length r.slots ≡ suc r.slots_mask
  pub covered : length r.slots ≤ r.period
  pub in_period : r.pos < r.period
  pub fits : r.period < 2 ^ 32

-- A write of a value within a bound.
bounded_set :
    (slots : List ℕ) (i v bound k : ℕ)
    → i < length slots
    → v ≤ bound
    → get_or slots k 0 ≤ bound
    → get_or (set slots i v) k 0 ≤ bound
bounded_set slots i v bound k lt le h = elim (Bool-cases (i == k)) [
  | inl same ↦ rw (get_or-set slots i k v 0 lt, same) le
  | inr other ↦ rw (get_or-set slots i k v 0 lt, other) h
]

pub length-count_slot :
    (peak i : ℕ) (slots : List ℕ) → length (count_slot peak i slots) ≡ length slots
unfolding count_slot
length-count_slot peak i slots = elim (Bool-cases (ltb (get_or slots i 0) peak)) [
  | inl below ↦ rw below (length-set slots i _)
  | inr full ↦ rw full refl
]

count_slot-le :
    (peak i : ℕ) (slots : List ℕ) (k : ℕ)
    → i < length slots
    → get_or slots k 0 ≤ peak
    → get_or (count_slot peak i slots) k 0 ≤ peak
unfolding count_slot
count_slot-le peak i slots k lt h = elim (Bool-cases (ltb (get_or slots i 0) peak)) [
  | inl below ↦ rw below (bounded_set slots i _ peak k lt (ground arith) h)
  | inr full ↦ rw full h
]

-- A full slot is left.
pub count_slot-full :
    (peak i : ℕ) (slots : List ℕ) → peak ≤ get_or slots i 0 → count_slot peak i slots ≡ slots
unfolding count_slot
count_slot-full peak i slots full = ground arith

module _ (peak : ℕ) where
  pub decay-IsValid : (r : RateLimiter) → IsValid peak r → IsValid peak (decay r)
  unfolding decay
  decay-IsValid r v =
      let wraps : (r.pos + 1) % 2 ^ 32 ≡ r.pos + 1 = omega (arith, v.in_period, v.fits) in
      elim (Bool-cases (leb r.pos r.slots_mask)) [
        | inl inside ↦ record {
          bounded = rw inside (λ k.
              bounded_set r.slots r.pos (get_or r.slots r.pos 0 / 2) peak k
                (ground (arith, v.sized)) (omega (arith, v.bounded r.pos)) (v.bounded k));
          sized = rw inside (length-set r.slots r.pos _ ∙ v.sized);
          covered = rw (inside, length-set r.slots r.pos (get_or r.slots r.pos 0 / 2)) v.covered;
          in_period = ground (arith, v.in_period, wraps);
          fits = v.fits;
        }
        | inr beyond ↦ record {
          bounded = rw beyond v.bounded;
          sized = rw beyond v.sized;
          covered = rw beyond v.covered;
          in_period = ground (arith, v.in_period, wraps);
          fits = v.fits;
        }
      ]

  pub slot_i-lt : (r : RateLimiter) (ip : List ℕ) → IsValid peak r → slot_i r ip < length r.slots
  slot_i-lt r ip v = rw v.sized (bit_and-lt_right (suc r.slots_mask) _ r.slots_mask (omega arith))

  pub slot_j-lt : (r : RateLimiter) (ip : List ℕ) → IsValid peak r → slot_j r ip < length r.slots
  slot_j-lt r ip v = rw v.sized (bit_and-lt_right (suc r.slots_mask) _ r.slots_mask (omega arith))

  -- The slots of an address are there when the clock has moved.
  pub inside_i :
      (r : RateLimiter) (ip : List ℕ) → IsValid peak r → slot_i r ip < length (decay r).slots
  unfolding decay
  inside_i r ip v = omega (arith, slot_i-lt r ip v, v.sized, (decay-IsValid r v).sized)

  pub inside_j :
      (r : RateLimiter) (ip : List ℕ) → IsValid peak r → slot_j r ip < length (decay r).slots
  unfolding decay
  inside_j r ip v = omega (arith, slot_j-lt r ip v, v.sized, (decay-IsValid r v).sized)

-- A hit keeps a limiter valid: no counter goes above the peak, the position stays within the period,
-- and the slots are as many as the mask says.
pub ratelimiter_hit-IsValid :
    (peak : ℕ) (r : RateLimiter) (ip : List ℕ)
    → IsValid peak r
    → IsValid peak (ratelimiter_hit r ip peak).1
unfolding ratelimiter_hit decay
ratelimiter_hit-IsValid peak r ip v =
    let d : RateLimiter = decay r in
    let w : IsValid peak d = decay-IsValid peak r v in
    let once : List ℕ = count_slot peak (slot_i r ip) d.slots in
    let same : length once ≡ length d.slots = length-count_slot peak (slot_i r ip) d.slots in
    let twice : length (count_slot peak (slot_j r ip) once) ≡ length d.slots =
      length-count_slot peak (slot_j r ip) once ∙ same in
    record {
      bounded = λ k.
          count_slot-le peak (slot_j r ip) once k (omega (arith, same, inside_j peak r ip v))
            (count_slot-le peak (slot_i r ip) d.slots k (inside_i peak r ip v) (w.bounded k));
      sized = twice ∙ w.sized;
      covered = omega (arith, twice, w.covered);
      in_period = w.in_period;
      fits = w.fits;
    }

pub hits-IsValid :
    (peak : ℕ) (r : RateLimiter) (ips : List (List ℕ))
    → IsValid peak r
    → IsValid peak (hits r ips peak)
unfolding hits
hits-IsValid peak r [] v = v
hits-IsValid peak r (ip ∷ ips) v =
    hits-IsValid peak (ratelimiter_hit r ip peak).1 ips (ratelimiter_hit-IsValid peak r ip v)

get_or-replicate : (n k : ℕ) → get_or {A = ℕ} (replicate n 0) k 0 ≡ 0
get_or-replicate zero k = refl
get_or-replicate (suc n) zero = refl
get_or-replicate (suc n) (suc k) = get_or-replicate n k

-- A limiter that was made is valid, of at least one slot, when the numbers fit into 32 bits.
pub ratelimiter_init-IsValid :
    (room : Bool) (slots_len period peak : ℕ) (key : List ℕ) (r : RateLimiter)
    → 0 < slots_len
    → slots_len < 2 ^ 32
    → period < 2 ^ 32
    → ratelimiter_init room slots_len period key ≡ some r
    → IsValid peak r
unfolding ratelimiter_init
ratelimiter_init-IsValid false slots_len period peak key r pos hs hp e = absurd (cc)
ratelimiter_init-IsValid true slots_len period peak key r pos hs hp e =
    let mask : (slots_len + 2 ^ 64 - 1) % 2 ^ 64 % 2 ^ 32 ≡ slots_len - 1 = omega arith in
    subst (IsValid peak) (some-injective _ r e) (record {
      bounded = λ k. omega (arith, get_or-replicate slots_len k);
      sized = length-replicate {A = ℕ} slots_len 0 ∙ omega arith;
      covered = ground (arith, length-replicate {A = ℕ} slots_len 0);
      in_period = ground arith;
      fits = ground arith;
    })

-- The answer of two counts, the second behind the first.
answered :
    (peak i j : ℕ) (slots : List ℕ)
    → ◌≡◌ {A = ℕ}
        (if ltb (get_or (count_slot peak i slots) j 0) peak
          then 0
          else (if ltb (get_or slots i 0) peak then 0 else 1))
        1
      ↔ ((peak ≤ get_or slots i 0) × (peak ≤ get_or slots j 0))
answered peak i j slots = elim (Bool-cases (ltb (get_or slots i 0) peak)) [
  | inl below ↦ (λ h. ground arith, λ (full, _). ground arith)
  | inr full ↦
      let same : count_slot peak i slots ≡ slots = count_slot-full peak i slots (ground arith) in
      rw (full, same) (λ h. (ground arith, ground arith), λ (_, top). ground arith)
]

-- A hit answers 1 exactly when both slots of the address, behind the decay, have reached the peak.
pub ratelimiter_hit-refuses :
    (peak : ℕ) (r : RateLimiter) (ip : List ℕ)
    → ((ratelimiter_hit r ip peak).0 ≡ 1) ↔ (
        (peak ≤ get_or (decay r).slots (slot_i r ip) 0)
        × (peak ≤ get_or (decay r).slots (slot_j r ip) 0))
unfolding ratelimiter_hit
ratelimiter_hit-refuses peak r ip = answered peak (slot_i r ip) (slot_j r ip) (decay r).slots
