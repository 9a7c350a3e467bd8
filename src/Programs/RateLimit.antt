-- ===== src/Programs/RateLimit.antt =====
-- bench/shootout-src/ratelimit.c: a limiter that counts hits in slots, two for an address, and halves
-- one slot in turn with each hit. `size_t` has 32 bits.
pub mod Slots
pub mod Decay
pub mod Admits
pub mod Tests
use zwasm.Base.{
  ℕ, zero, suc, ◌+◌, ◌-◌, ◌*◌, ◌/◌, ◌%◌, ◌^◌, Option, none, some, Bool, List, [], ◌∷◌, ltb, leb,
  if◌then◌else◌, length, get_or, set, replicate, drop, take, bit_and, bit_or, bit_xor,
}
use zwasm.Base.Slices.{le_value}

pub record RateLimiter : Type 0 where
  pub slots : List ℕ
  pub v0 : ℕ
  pub v1 : ℕ
  pub slots_mask : ℕ
  pub period : ℕ
  pub pos : ℕ

-- `none` is the -1 of a failed allocation; `room` says whether memory is given.
unfoldable pub ratelimiter_init : Bool → ℕ → ℕ → List ℕ → Option RateLimiter
ratelimiter_init room slots_len period key =
    if room
    then some (record {
      slots = replicate slots_len 0;
      v0 = le_value (take 8 key);
      v1 = le_value (take 8 (drop 8 key));
      slots_mask = (slots_len + 2 ^ 64 - 1) % 2 ^ 64 % 2 ^ 32;
      period = if ltb period slots_len then slots_len else period;
      pos = 0;
    })
    else none

unfoldable pub rotate : ℕ → ℕ → ℕ
rotate x b = bit_or (x * 2 ^ b % 2 ^ 64) (x / 2 ^ (64 - b))

pub record Words : Type 0 where
  pub w0 : ℕ
  pub w1 : ℕ
  pub w2 : ℕ
  pub w3 : ℕ

-- `SIPROUND`
unfoldable pub sip_round : Words → Words
unfolding rotate
sip_round s =
    let a0 = (s.w0 + s.w1) % 2 ^ 64 in
    let a1 = bit_xor (rotate s.w1 13) a0 in
    let a2 = (s.w2 + s.w3) % 2 ^ 64 in
    let a3 = bit_xor (rotate s.w3 16) a2 in
    let b0 = (rotate a0 32 + a3) % 2 ^ 64 in
    let b3 = bit_xor (rotate a3 21) b0 in
    let b2 = (a2 + a1) % 2 ^ 64 in
    let b1 = bit_xor (rotate a1 17) b2 in record { w0 = b0; w1 = b1; w2 = rotate b2 32; w3 = b3 }

-- One half of the address.
unfoldable pub absorb : ℕ → Words → Words
unfolding sip_round
absorb m s =
    let t = sip_round (record s { w3 = bit_xor s.w3 m }) in record t { w0 = bit_xor t.w0 m }

abbrev pub folded : Words → ℕ
folded s = bit_xor (bit_xor (bit_xor s.w0 s.w1) s.w2) s.w3

-- The two hashes of an address of 16 bytes.
unfoldable pub ratelimiter_hashes : List ℕ → ℕ → ℕ → ℕ × ℕ
unfolding sip_round absorb
ratelimiter_hashes ip v0 v1 =
    let s : Words = record {
      w0 = v0;
      w1 = v1;
      w2 = bit_xor (bit_xor 0x736f6d6570736575 0x6c7967656e657261) v0;
      w3 = bit_xor (bit_xor 0x646f72616e646f6d 0x7465646279746573) v1;
    } in
    let t = absorb (le_value (take 8 (drop 8 ip))) (absorb (le_value (take 8 ip)) s) in
    let u = sip_round (sip_round (sip_round (record t { w2 = bit_xor t.w2 0xff }))) in
    (folded u, folded (sip_round u))

-- The slot at `pos` is halved, and `pos` moves on.
unfoldable pub decay : RateLimiter → RateLimiter
decay r =
    let next = (r.pos + 1) % 2 ^ 32 in
    record r {
      slots =
          if leb r.pos r.slots_mask
          then set r.slots r.pos (get_or r.slots r.pos 0 / 2)
          else r.slots;
      pos = if leb r.period next then 0 else next;
    }

-- A slot below the peak is counted up; a slot is an unsigned int.
unfoldable pub count_slot : ℕ → ℕ → List ℕ → List ℕ
count_slot peak i slots =
    if ltb (get_or slots i 0) peak then set slots i ((get_or slots i 0 + 1) % 2 ^ 32) else slots

-- The two slots of an address.
abbrev pub slot_i : RateLimiter → List ℕ → ℕ
slot_i r ip = bit_and (ratelimiter_hashes ip r.v0 r.v1).0 r.slots_mask

abbrev pub slot_j : RateLimiter → List ℕ → ℕ
slot_j r ip = bit_and (ratelimiter_hashes ip r.v0 r.v1).1 r.slots_mask

-- 0 when one of the two slots, the second behind the first, is below the peak, and 1 otherwise.
unfoldable pub ratelimiter_hit : RateLimiter → List ℕ → ℕ → ℕ × RateLimiter
unfolding decay count_slot
ratelimiter_hit r ip peak =
    let d = decay r in
    let once = count_slot peak (slot_i r ip) d.slots in
    let ret = if ltb (get_or d.slots (slot_i r ip) 0) peak then 0 else 1 in
    (
      if ltb (get_or once (slot_j r ip) 0) peak then 0 else ret,
      record d { slots = count_slot peak (slot_j r ip) once },
    )

-- Hits one behind the other.
unfoldable pub hits : RateLimiter → List (List ℕ) → ℕ → RateLimiter
unfolding ratelimiter_hit
hits r [] peak = r
hits r (ip ∷ ips) peak = hits (ratelimiter_hit r ip peak).1 ips peak
