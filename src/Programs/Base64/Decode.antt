-- ===== src/Programs/Base64/Decode.antt =====
-- `base642bin` around its loop: the tests at the end, the padding, and what is reported.
use zwasm.Base.{
  ℕ, ◌-◌, ◌/◌, ◌^◌, Bool, true, false, ◌&&◌, ◌||◌, not, Option, none, some, List, [], ◌∷◌, ltb,
  ◌==◌, if◌then◌else◌, length, bit_and,
}
use zwasm.Programs.Base64.{
  Errno, einval, ignored, skip_padding, Decoding, decode_loop, variant_ok, no_padding, is_urlsafe,
}

-- `ret` is -1 when `failed`; `errno` is `none` when the call leaves it alone; `b64_end` is the input
-- from the place that the pointer is set to.
pub record Decoded : Type 0 where
  pub failed : Bool
  pub errno : Option Errno
  pub bin : List ℕ
  pub bin_len : ℕ
  pub b64_end : List ℕ

abbrev pub is_some {ℓ} : {A : Type ℓ} → Option A → Bool
is_some none = false
is_some (some a) = true

-- The loop that skips what is ignored at the end.
unfoldable pub skip_ignored : Option (List ℕ) → List ℕ → List ℕ
skip_ignored ignore [] = []
skip_ignored ignore (c ∷ b64) =
    let rest = skip_ignored ignore b64 in if ignored ignore c then rest else c ∷ b64

-- The tests on what is left of the last group, and the padding.
unfoldable pub check_tail : ℕ → Option (List ℕ) → Decoding → Bool × Option Errno × List ℕ
check_tail variant ignore d =
    if ltb 4 d.acc_len || not (bit_and d.acc (2 ^ d.acc_len - 1) == 0)
    then (true, d.error, d.rest)
    else if not (is_some d.error) && not (no_padding variant)
    then (let (e, rest) = skip_padding (d.acc_len / 2) ignore d.rest in (is_some e, e, rest))
    else (is_some d.error, d.error, d.rest)

-- `wants_end` is whether the caller gives a place for the end; without it, input that is left over
-- is an error. `none` is a loop for ever.
unfoldable pub base642bin : ℕ → List ℕ → Option (List ℕ) → (wants_end : Bool) → ℕ → Option Decoded
base642bin bin_maxlen b64 ignore wants_end variant =
    if not (variant_ok variant)
    then none
    else let d = decode_loop (is_urlsafe variant) ignore bin_maxlen 0 0 [] b64 in
      let (failed, errno, rest) = check_tail variant ignore d in
      let end_rest = if failed then rest else skip_ignored ignore rest in
      let left_over = not wants_end && ltb 0 (length end_rest) in
      some (record {
        failed = failed || left_over;
        errno = if left_over then some einval else errno;
        bin = d.bin;
        bin_len = if failed then 0 else length d.bin;
        b64_end = end_rest;
      })
