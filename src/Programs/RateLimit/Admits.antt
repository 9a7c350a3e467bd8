-- ===== src/Programs/RateLimit/Admits.antt =====
-- Behind a quiet period an address is admitted again.
use zwasm.Base.{
  ℕ, ◌+◌, ◌-◌, ◌/◌, ◌≤◌, ◌<◌, ◌≡◌, refl, ap, ◌∙◌, arith, Bool, true, false, List, [], ◌∷◌, ltb, leb,
  ◌==◌, if◌then◌else◌, length, get_or, All, Bool-cases, inl, inr, leb→le, lt_of_leb,
}
use zwasm.Programs.RateLimit.{RateLimiter, decay, count_slot, slot_i, slot_j, ratelimiter_hit, hits}
use zwasm.Programs.RateLimit.Slots.{IsValid, slot_i-lt, hits-IsValid}
use zwasm.Programs.RateLimit.Decay.{Avoids, Due, halved, decay-slot}

-- When the clock comes to a place next.
Due-some :
    (peak : ℕ) (r : RateLimiter) (k : ℕ) → IsValid peak r → k < r.period → (d : ℕ) × Due r k d
Due-some peak r k v lt = elim (Bool-cases (leb r.pos k)) [
  | inl ahead ↦
      let le : r.pos ≤ k = leb→le r.pos k ahead in (k - r.pos, (omega arith, inl (omega arith)))
  | inr behind ↦
      let gt : k < r.pos = lt_of_leb r.pos k behind in
      (k + r.period - r.pos, (omega arith, inr (omega (arith, v.in_period))))
]

-- In a valid limiter, a slot that none of as many hits as the period touches is halved exactly once.
pub hits-halve :
    (peak : ℕ) (r : RateLimiter) (k : ℕ) (ips : List (List ℕ))
    → IsValid peak r
    → k < length r.slots
    → All (Avoids r k) ips
    → length ips ≡ r.period
    → get_or (hits r ips peak).slots k 0 ≡ get_or r.slots k 0 / 2
hits-halve peak r k ips v lt quiet whole =
    let (d, due) = Due-some peak r k v (omega (arith, v.covered)) in
    halved peak k ips r d v lt quiet due (omega (arith, due.0)) (omega arith)

slot_after :
    (peak : ℕ) (r : RateLimiter) (ips : List (List ℕ)) (ip : List ℕ)
    → slot_i (hits r ips peak) ip ≡ slot_i r ip
unfolding hits ratelimiter_hit decay
slot_after peak r [] ip = refl
slot_after peak r (ip' ∷ ips) ip = slot_after peak (ratelimiter_hit r ip' peak).1 ips ip

half_below : (v peak : ℕ) (c : Bool) → v ≤ peak → 0 < peak → (if c then v / 2 / 2 else v / 2) < peak
half_below v peak true h pos = omega arith
half_below v peak false h pos = omega arith

-- The answer when the first slot is below the peak.
first_admits :
    (peak i j : ℕ) (slots : List ℕ)
    → get_or slots i 0 < peak
    → ◌≡◌ {A = ℕ}
        (if ltb (get_or (count_slot peak i slots) j 0) peak
          then 0
          else (if ltb (get_or slots i 0) peak then 0 else 1))
        0
first_admits peak i j slots below =
    let less : ltb (get_or slots i 0) peak ≡ true = ground arith in
    rw less (elim (Bool-cases (ltb (get_or (count_slot peak i slots) j 0) peak)) [
      | inl second ↦ rw second refl
      | inr full ↦ rw full refl
    ])

-- No address is refused for ever: when none of as many hits as the period touches its first slot, the
-- next hit of the address is answered with 0, whatever the limiter counted before. The limiter is
-- valid and the peak is not 0.
pub ratelimiter_hit-admits :
    (peak : ℕ) (r : RateLimiter) (ip : List ℕ) (ips : List (List ℕ))
    → IsValid peak r
    → 0 < peak
    → All (Avoids r (slot_i r ip)) ips
    → length ips ≡ r.period
    → (ratelimiter_hit (hits r ips peak) ip peak).0 ≡ 0
unfolding ratelimiter_hit
ratelimiter_hit-admits peak r ip ips v pos quiet whole =
    let s : RateLimiter = hits r ips peak in
    let w : IsValid peak s = hits-IsValid peak r ips v in
    let k : ℕ = slot_i r ip in
    let same : slot_i s ip ≡ k = slot_after peak r ips ip in
    let inside : slot_i s ip < length s.slots = slot_i-lt peak s ip w in
    let half : get_or s.slots (slot_i s ip) 0 ≡ get_or r.slots k 0 / 2 =
      ap (λ (i : ℕ). get_or s.slots i 0) same
      ∙ hits-halve peak r k ips v (slot_i-lt peak r ip v) quiet whole in
    let now : get_or (decay s).slots (slot_i s ip) 0 < peak =
      rw (decay-slot peak s (slot_i s ip) w inside, half)
        (half_below (get_or r.slots k 0) peak (s.pos == slot_i s ip) (v.bounded k) pos) in
    first_admits peak (slot_i s ip) (slot_j s ip) (decay s).slots now
