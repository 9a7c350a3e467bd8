-- ===== src/Programs/Cipher/Stream.antt =====
-- The loop over a text is exclusive or with a key stream; so a second pass undoes the first.
use zwasm.Base.{
  false, ℕ, zero, suc, ◌+◌, ◌-◌, ◌*◌, ◌/◌, ◌%◌, ◌^◌, ◌≤◌, ◌<◌, ◌≡◌, refl, sym, ap, ◌∙◌, arith, List,
  [], ◌∷◌, ◌++◌, length, length-append, length-drop, length-replicate, drop, set, replicate, All,
  All-drop, All-append, All-replicate, leb, ltb, ◌==◌, Bool-cases, inl, inr, leb→le, lt_of_leb,
}
use native.Mathlib.Nat.{mul-suc}
use zwasm.Base.Bits.{bit_xor-lt}
use zwasm.Base.Slices.{le_bytes, length-set}
use zwasm.Programs.Cipher.{
  Rotations, word, half_quarter, quarter_round, double_round, rounds, add_words, count_up, update,
  store_words, xor_loop,
}
use zwasm.Programs.Cipher.Laws.{
  IsByte, xor_bytes, xor_bytes-none, xor_words-bytes, xor_bytes-append, xor_bytes-enough,
  xor_bytes-padded, xor_bytes_twice, length-store_words, length-xor_bytes,
}

length-half_quarter : (w r a b d : ℕ) (st : List ℕ) → length (half_quarter w r a b d st) ≡ length st
unfolding half_quarter
length-half_quarter w r a b d st = length-set _ d _ ∙ length-set st a _

length-quarter_round :
    (w : ℕ) (r : Rotations) (a b c d : ℕ) (st : List ℕ)
    → length (quarter_round w r a b c d st) ≡ length st
unfolding quarter_round
length-quarter_round w r a b c d st = simp length-half_quarter

length-double_round :
    (w : ℕ) (r : Rotations) (st : List ℕ) → length (double_round w r st) ≡ length st
unfolding double_round
length-double_round w r st = simp length-quarter_round

length-rounds : (w : ℕ) (r : Rotations) (n : ℕ) (st : List ℕ) → length (rounds w r n st) ≡ length st
unfolding rounds
length-rounds w r zero st = refl
length-rounds w r (suc n) st =
    length-rounds w r n (double_round w r st) ∙ length-double_round w r st

length-add_words : (w : ℕ) (ks st : List ℕ) → length (add_words w ks st) ≡ length ks
unfolding add_words
length-add_words w [] st = refl
length-add_words w (k ∷ ks) st = ap suc (length-add_words w ks (drop 1 st))

length-count_up : (w : ℕ) (st : List ℕ) → length (count_up w st) ≡ length st
unfolding count_up
length-count_up w st =
    let counted : List ℕ = set st 12 ((word st 12 + 1) % 2 ^ w) in
    elim (Bool-cases ((word st 12 + 1) % 2 ^ w == 0)) [
      | inl wrapped ↦ rw wrapped (length-set counted 13 _ ∙ length-set st 12 _)
      | inr fits ↦ rw fits (length-set st 12 _)
    ]

length-update :
    (w : ℕ) (r : Rotations) (st : List ℕ)
    → (length (update w r st).0 ≡ length st) × (length (update w r st).1 ≡ length st)
unfolding update
length-update w r st = (
  length-add_words w st (rounds w r 6 st),
  length-count_up w (rounds w r 6 st) ∙ length-rounds w r 6 st,
)

-- The key stream of some blocks.
unfoldable pub keystream : ℕ → Rotations → ℕ → List ℕ → List ℕ
keystream n r zero st = []
keystream n r (suc blocks) st =
    store_words n (update (8 * n) r st).0 ++ keystream n r blocks (update (8 * n) r st).1

length-keystream :
    (n : ℕ) (r : Rotations) (blocks : ℕ) (st : List ℕ)
    → length st ≡ 16
    → length (keystream n r blocks st) ≡ 16 * n * blocks
unfolding keystream
length-keystream n r zero st h = omega arith
length-keystream n r (suc blocks) st h =
    let (words, state) = length-update (8 * n) r st in
    let ks : List ℕ = (update (8 * n) r st).0 in
    let st' : List ℕ = (update (8 * n) r st).1 in
    omega (
      arith,
      length-append (store_words n ks) (keystream n r blocks st'),
      length-store_words n ks,
      ap (λ (t : ℕ). n * t) (words ∙ h),
      length-keystream n r blocks st' (state ∙ h),
      mul-suc (16 * n) blocks,
    )

empty_text : (m : List ℕ) → ltb 0 (length m) ≡ false → m ≡ []
empty_text [] h = refl
empty_text (b ∷ bs) h = absurd (ground arith)

-- The loop over a text that is shorter than the key stream of its fuel.
pub xor_loop-keystream :
    (n : ℕ) (r : Rotations) (fuel : ℕ) (st m : List ℕ)
    → length st ≡ 16
    → All IsByte m
    → length m < 16 * n * fuel
    → xor_loop n r fuel st m ≡ xor_bytes (keystream n r fuel st) m
unfolding xor_loop keystream
xor_loop-keystream n r zero st m h bytes lt = absurd (omega arith)
xor_loop-keystream n r (suc fuel) st m h bytes lt =
    let (words, state) = length-update (8 * n) r st in
    let ks : List ℕ = (update (8 * n) r st).0 in
    let st' : List ℕ = (update (8 * n) r st).1 in
    let later : List ℕ = keystream n r fuel st' in
    let size : n * length ks ≡ 16 * n = omega (arith, ap (λ (t : ℕ). n * t) (words ∙ h)) in
    let stored : length (store_words n ks) ≡ 16 * n = length-store_words n ks ∙ size in
    elim (Bool-cases (leb (16 * n) (length m))) [
      | inl whole ↦
          let le : 16 * n ≤ length m = leb→le (16 * n) (length m) whole in
          let rest : xor_loop n r fuel st' (drop (16 * n) m) ≡ xor_bytes later (drop (16 * n) m) =
            xor_loop-keystream n r fuel st' (drop (16 * n) m) (state ∙ h)
              (All-drop IsByte (16 * n) m bytes)
              (omega (arith, length-drop (16 * n) m, mul-suc (16 * n) fuel)) in
          rw (whole, xor_words-bytes n ks m (omega arith) bytes, rest)
            (ap (λ (i : ℕ). xor_bytes (store_words n ks) m ++ xor_bytes later (drop i m))
                (sym stored)
              ∙ sym (xor_bytes-append (store_words n ks) later m))
      | inr short ↦ rw short (elim (Bool-cases (ltb 0 (length m))) [
        | inl some_left ↦
            let zeros : List ℕ = replicate (16 * n - length m) 0 in
            let room : n * length ks ≤ length (m ++ zeros) =
              omega
                (arith, length-append m zeros, length-replicate {A = ℕ} (16 * n - length m) 0) in
            rw
              (
                some_left,
                xor_words-bytes n ks (m ++ zeros) room (
                    All-append IsByte m zeros bytes
                      (All-replicate IsByte (16 * n - length m) 0 (omega arith))),
              )
              (xor_bytes-padded (store_words n ks) m zeros
                ∙ sym (
                    xor_bytes-enough (store_words n ks) later m
                      (omega (arith, lt_of_leb (16 * n) (length m) short))))
        | inr none_left ↦ rw none_left (
            sym (xor_bytes-none (store_words n ks ++ later))
            ∙ ap (xor_bytes (store_words n ks ++ later)) (sym (empty_text m none_left)))
      ])
    ]

All-le_bytes : (n v : ℕ) → All IsByte (le_bytes n v)
All-le_bytes zero v = tt
All-le_bytes (suc n) v = (omega arith, All-le_bytes n (v / 256))

All-store_words : (n : ℕ) (ks : List ℕ) → All IsByte (store_words n ks)
All-store_words n [] = tt
All-store_words n (k ∷ ks) =
    All-append IsByte (le_bytes n k) (store_words n ks) (All-le_bytes n k) (All-store_words n ks)

All-keystream :
    (n : ℕ) (r : Rotations) (blocks : ℕ) (st : List ℕ) → All IsByte (keystream n r blocks st)
unfolding keystream
All-keystream n r zero st = tt
All-keystream n r (suc blocks) st =
    let (ks, st') = update (8 * n) r st in
    All-append IsByte (store_words n ks) (keystream n r blocks st') (All-store_words n ks)
      (All-keystream n r blocks st')

All-xor_bytes : (ks bs : List ℕ) → All IsByte ks → All IsByte bs → All IsByte (xor_bytes ks bs)
unfolding xor_bytes
All-xor_bytes [] bs hk hb = tt
All-xor_bytes (k ∷ ks) [] hk hb = tt
All-xor_bytes (k ∷ ks) (b ∷ bs) (hk, hks) (hb, hbs) =
    (bit_xor-lt 8 k b hk hb, All-xor_bytes ks bs hks hbs)

-- A text of bytes goes through the loop twice unchanged.
pub xor_loop_twice :
    (n : ℕ) (r : Rotations) (fuel : ℕ) (st m : List ℕ)
    → length st ≡ 16
    → All IsByte m
    → length m < 16 * n * fuel
    → (length (xor_loop n r fuel st m) ≡ length m)
      × (xor_loop n r fuel st (xor_loop n r fuel st m) ≡ m)
xor_loop_twice n r fuel st m h bytes lt =
    let ks : List ℕ = keystream n r fuel st in
    let enough : length m ≤ length ks = omega (arith, length-keystream n r fuel st h) in
    let once : xor_loop n r fuel st m ≡ xor_bytes ks m =
      xor_loop-keystream n r fuel st m h bytes lt in
    let same : length (xor_bytes ks m) ≡ length m = length-xor_bytes ks m enough in
    let again : xor_loop n r fuel st (xor_bytes ks m) ≡ xor_bytes ks (xor_bytes ks m) =
      xor_loop-keystream n r fuel st (xor_bytes ks m) h
        (All-xor_bytes ks m (All-keystream n r fuel st) bytes) (omega arith) in
    (ap length once ∙ same, ap (xor_loop n r fuel st) once ∙ again ∙ xor_bytes_twice ks m enough)
