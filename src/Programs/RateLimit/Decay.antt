-- ===== src/Programs/RateLimit/Decay.antt =====
-- How a slot decays that no address hits: a period halves it once.
use zwasm.Base.{
  ℕ, zero, suc, ◌+◌, ◌-◌, ◌/◌, ◌%◌, ◌^◌, ◌≤◌, ◌<◌, ◌≡◌, ◌⊎◌, refl, sym, ap, ◌∙◌, arith, true, false,
  List, [], ◌∷◌, ltb, leb, ◌==◌, if◌then◌else◌, length, get_or, All, Bool-cases, inl, inr, leb→le,
  lt_of_leb,
}
use zwasm.Base.Slices.{get_or-set}
use zwasm.Programs.RateLimit.{RateLimiter, decay, count_slot, slot_i, slot_j, ratelimiter_hit, hits}
use zwasm.Programs.RateLimit.Slots.{
  IsValid, inside_i, inside_j, length-count_slot, ratelimiter_hit-IsValid,
}

-- An address that has none of its slots at place `k`.
abbrev pub Avoids : RateLimiter → ℕ → List ℕ → Type 0
Avoids r k ip = ((slot_i r ip == k) ≡ false) × ((slot_j r ip == k) ≡ false)

count_slot-other :
    (peak i k : ℕ) (slots : List ℕ)
    → i < length slots
    → (i == k) ≡ false
    → get_or (count_slot peak i slots) k 0 ≡ get_or slots k 0
unfolding count_slot
count_slot-other peak i k slots lt other = elim (Bool-cases (ltb (get_or slots i 0) peak)) [
  | inl below ↦ rw (below, get_or-set slots i k ((get_or slots i 0 + 1) % 2 ^ 32) 0 lt, other) refl
  | inr full ↦ rw full refl
]

module _ (peak : ℕ) where
  pub decay-slot :
      (r : RateLimiter) (k : ℕ)
      → IsValid peak r
      → k < length r.slots
      → get_or (decay r).slots k 0
        ≡ (if r.pos == k then get_or r.slots k 0 / 2 else get_or r.slots k 0)
  unfolding decay
  decay-slot r k v lt = elim (Bool-cases (leb r.pos r.slots_mask)) [
    | inl inside ↦
        rw
          (
            inside,
            get_or-set r.slots r.pos k (get_or r.slots r.pos 0 / 2) 0 (ground (arith, v.sized)),
          )
          (elim (Bool-cases (r.pos == k)) [
            | inl here ↦ rw here (ap (λ (i : ℕ). get_or r.slots i 0 / 2) (ground arith))
            | inr there ↦ rw there refl
          ])
    | inr beyond ↦
        let there : (r.pos == k) ≡ false = ground (arith, v.sized) in rw (beyond, there) refl
  ]

  quiet_hit :
      (r : RateLimiter) (ip : List ℕ) (k : ℕ)
      → IsValid peak r
      → k < length r.slots
      → Avoids r k ip
      → get_or (ratelimiter_hit r ip peak).1.slots k 0
        ≡ (if r.pos == k then get_or r.slots k 0 / 2 else get_or r.slots k 0)
  unfolding ratelimiter_hit
  quiet_hit r ip k v lt (apart_i, apart_j) =
      let d : RateLimiter = decay r in
      let once : List ℕ = count_slot peak (slot_i r ip) d.slots in
      let same : length once ≡ length d.slots = length-count_slot peak (slot_i r ip) d.slots in
      count_slot-other peak (slot_j r ip) k once (omega (arith, same, inside_j peak r ip v)) apart_j
      ∙ count_slot-other peak (slot_i r ip) k d.slots (inside_i peak r ip v) apart_i
      ∙ decay-slot r k v lt

-- The clock comes to place `k` behind `d` hits.
abbrev pub Due : RateLimiter → ℕ → ℕ → Type 0
Due r k d = (d < r.period) × ((r.pos + d ≡ k) ⊎ (r.pos + d ≡ k + r.period))

-- The clock's next position is due a hit earlier.
next_due :
    (pos period k d : ℕ)
    → pos < period
    → period < 2 ^ 32
    → k < period
    → suc d < period
    → ((pos + suc d ≡ k) ⊎ (pos + suc d ≡ k + period))
    → let next : ℕ = if leb period ((pos + 1) % 2 ^ 32) then 0 else (pos + 1) % 2 ^ 32 in
      (next + d ≡ k) ⊎ (next + d ≡ k + period)
next_due pos period k d lt fits inside soon at =
    elim (Bool-cases (leb period ((pos + 1) % 2 ^ 32))) [
      | inl wraps ↦
          let last : pos + 1 ≡ period = omega (arith, leb→le period ((pos + 1) % 2 ^ 32) wraps) in
          rw wraps (elim at [ inl now ↦ absurd (omega arith) | inr later ↦ inl (omega arith) ])
      | inr on ↦
          let less : (pos + 1) % 2 ^ 32 < period = lt_of_leb period ((pos + 1) % 2 ^ 32) on in
          rw on (elim at [ inl now ↦ inl (omega arith) | inr later ↦ inr (omega arith) ])
    ]

-- Behind the hit that halves a slot, it is due at the end of a period.
again_due :
    (pos period k : ℕ)
    → pos < period
    → period < 2 ^ 32
    → pos ≡ k
    → let next : ℕ = if leb period ((pos + 1) % 2 ^ 32) then 0 else (pos + 1) % 2 ^ 32 in
      (next + (period - 1) ≡ k) ⊎ (next + (period - 1) ≡ k + period)
again_due pos period k lt fits here = elim (Bool-cases (leb period ((pos + 1) % 2 ^ 32))) [
  | inl wraps ↦
      let last : pos + 1 ≡ period = omega (arith, leb→le period ((pos + 1) % 2 ^ 32) wraps) in
      rw wraps (inl (omega arith))
  | inr on ↦
      let less : (pos + 1) % 2 ^ 32 < period = lt_of_leb period ((pos + 1) % 2 ^ 32) on in
      rw on (inr (omega arith))
]

module _ (peak : ℕ) (k : ℕ) where
  Due-next :
      (r : RateLimiter) (ip : List ℕ) (d : ℕ)
      → IsValid peak r
      → k < r.period
      → Due r k (suc d)
      → Due (ratelimiter_hit r ip peak).1 k d
  unfolding ratelimiter_hit decay
  Due-next r ip d v lt (soon, at) =
      (omega arith, next_due r.pos r.period k d v.in_period v.fits lt soon at)

  Due-now : (r : RateLimiter) → IsValid peak r → Due r k 0 → r.pos ≡ k
  Due-now r v (soon, at) = elim at [
    | inl now ↦ omega arith
    | inr later ↦ absurd (omega (arith, v.in_period))
  ]

  Due-later : (r : RateLimiter) (d : ℕ) → k < r.period → Due r k (suc d) → (r.pos == k) ≡ false
  Due-later r d lt (soon, at) = elim at [ inl now ↦ ground arith | inr later ↦ ground arith ]

  Due-again :
      (r : RateLimiter) (ip : List ℕ)
      → IsValid peak r
      → Due r k 0
      → Due (ratelimiter_hit r ip peak).1 k (r.period - 1)
  unfolding ratelimiter_hit decay
  Due-again r ip v due =
      (omega (arith, v.in_period), again_due r.pos r.period k v.in_period v.fits (Due-now r v due))

  -- Hits change neither the keys nor the mask, so they do not move the slots of an address.
  Avoids-after :
      (r : RateLimiter) (ip : List ℕ) (ips : List (List ℕ))
      → All (Avoids r k) ips
      → All (Avoids (ratelimiter_hit r ip peak).1 k) ips
  unfolding ratelimiter_hit decay
  Avoids-after r ip [] h = tt
  Avoids-after r ip (ip' ∷ ips) (h, hs) = (h, Avoids-after r ip ips hs)

  length-slots :
      (r : RateLimiter) (ip : List ℕ)
      → IsValid peak r
      → length (ratelimiter_hit r ip peak).1.slots ≡ length r.slots
  unfolding ratelimiter_hit decay
  length-slots r ip v = (ratelimiter_hit-IsValid peak r ip v).sized ∙ sym v.sized

  -- Until the clock comes to its place, a slot that is not hit is what it was.
  kept :
      (ips : List (List ℕ)) (r : RateLimiter) (d : ℕ)
      → IsValid peak r
      → k < length r.slots
      → All (Avoids r k) ips
      → Due r k d
      → length ips ≤ d
      → get_or (hits r ips peak).slots k 0 ≡ get_or r.slots k 0
  unfolding hits
  kept [] r d v lt quiet due le = refl
  kept (ip ∷ ips) r zero v lt quiet due le = absurd (omega arith)
  kept (ip ∷ ips) r (suc d) v lt (quiet, rest) due le =
      let inside : k < r.period = omega (arith, v.covered) in
      kept ips (ratelimiter_hit r ip peak).1 d (ratelimiter_hit-IsValid peak r ip v)
        (omega (arith, length-slots r ip v)) (Avoids-after r ip ips rest)
        (Due-next r ip d v inside due) (omega arith)
      ∙ quiet_hit peak r ip k v lt quiet
      ∙ (rw (Due-later r d inside due) refl)

  pub halved :
      (ips : List (List ℕ)) (r : RateLimiter) (d : ℕ)
      → IsValid peak r
      → k < length r.slots
      → All (Avoids r k) ips
      → Due r k d
      → d < length ips
      → length ips ≤ d + r.period
      → get_or (hits r ips peak).slots k 0 ≡ get_or r.slots k 0 / 2
  unfolding hits
  halved [] r d v lt quiet due more le = absurd (omega arith)
  halved (ip ∷ ips) r zero v lt (quiet, rest) due more le =
      let here : (r.pos == k) ≡ true = ground (arith, Due-now r v due) in
      kept ips (ratelimiter_hit r ip peak).1 (r.period - 1) (ratelimiter_hit-IsValid peak r ip v)
        (omega (arith, length-slots r ip v)) (Avoids-after r ip ips rest) (Due-again r ip v due)
        (omega arith)
      ∙ quiet_hit peak r ip k v lt quiet
      ∙ rw here refl
  halved (ip ∷ ips) r (suc d) v lt (quiet, rest) due more le =
      let inside : k < r.period = omega (arith, v.covered) in
      halved ips (ratelimiter_hit r ip peak).1 d (ratelimiter_hit-IsValid peak r ip v)
        (omega (arith, length-slots r ip v)) (Avoids-after r ip ips rest)
        (Due-next r ip d v inside due) (omega arith) (omega arith)
      ∙ ap (λ (t : ℕ). t / 2)
          (quiet_hit peak r ip k v lt quiet ∙ rw (Due-later r d inside due) refl)
