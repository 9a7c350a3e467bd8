-- ===== src/Programs/RateLimit/Tests.antt =====
-- A limiter of four slots, and the theorems there.
use zwasm.Base.{ℕ, ◌≤◌, ◌≡◌, ◌↔◌, refl, arith, true, some, List, [], ◌∷◌, replicate, get_or, All}
use zwasm.Programs.RateLimit.{
  RateLimiter, ratelimiter_init, rotate, sip_round, absorb, ratelimiter_hashes, decay, slot_i,
  slot_j, ratelimiter_hit, hits,
}
use zwasm.Programs.RateLimit.Slots.{
  IsValid, ratelimiter_init-IsValid, ratelimiter_hit-IsValid, ratelimiter_hit-refuses,
}
use zwasm.Programs.RateLimit.Decay.{Avoids}
use zwasm.Programs.RateLimit.Admits.{ratelimiter_hit-admits}

abbrev limiter : RateLimiter
limiter = record { slots = replicate 4 0; v0 = 0; v1 = 0; slots_mask = 3; period = 4; pos = 0 }

made : ratelimiter_init true 4 1 (replicate 16 0) ≡ some limiter
unfolding ratelimiter_init
made = refl

limiter-IsValid : IsValid 10 limiter
limiter-IsValid =
    ratelimiter_init-IsValid true 4 1 10 (replicate 16 0) limiter (omega arith) (omega arith)
      (omega arith) made

abbrev address : ℕ → List ℕ
address b = replicate 16 b

-- The first slot of one address is the second of four.
slot_run : slot_i limiter (address 0) ≡ 1
unfolding ratelimiter_hashes absorb sip_round rotate
slot_run = refl

abbrev others : List (List ℕ)
others = address 1 ∷ address 2 ∷ address 3 ∷ address 4 ∷ []

others-Avoid : All (Avoids limiter (slot_i limiter (address 0))) others
unfolding ratelimiter_hashes absorb sip_round rotate
others-Avoid = ((refl, refl), ((refl, refl), ((refl, refl), ((refl, refl), tt))))

ratelimiter_hit-IsValid_example : IsValid 10 (ratelimiter_hit limiter (address 0) 10).1
ratelimiter_hit-IsValid_example = ratelimiter_hit-IsValid 10 limiter (address 0) limiter-IsValid

ratelimiter_hit-refuses_example : ((ratelimiter_hit limiter (address 0) 10).0 ≡ 1) ↔ (
    (10 ≤ get_or (decay limiter).slots (slot_i limiter (address 0)) 0)
    × (10 ≤ get_or (decay limiter).slots (slot_j limiter (address 0)) 0))
ratelimiter_hit-refuses_example = ratelimiter_hit-refuses 10 limiter (address 0)

ratelimiter_hit-admits_example : (ratelimiter_hit (hits limiter others 10) (address 0) 10).0 ≡ 0
ratelimiter_hit-admits_example =
    ratelimiter_hit-admits 10 limiter (address 0) others limiter-IsValid (omega arith) others-Avoid
      refl
