-- ===== src/CApi/ErrorBuffer/Laws.antt =====
-- What the strings are that the C caller sees.
use zwasm.Base.{
  ℕ, zero, suc, ◌≤◌, ◌<◌, ◌≡◌, ◌≢◌, refl, ap, ◌∙◌, sym, arith, min, true, false, some, List, [],
  ◌∷◌, ltb, leb, ◌==◌, if◌then◌else◌, length, get_elem?, set, take, All, length-take,
}
use zwasm.Base.Slices.{overwrite, length-splice, length-set}
use zwasm.CApi.ErrorBuffer.{
  ErrorBuffer, IsValid, set_error, clear_error, c_string, last_error_message, export_name,
}
use native.Mathlib.Decide.{dec_lt}

-- A text with no zero byte in it.
abbrev pub NoNul : List ℕ → Type 0
NoNul = All (λ b. b ≢ 0)

-- A buffer that begins with `n` bytes of a text, with a zero behind them, shows these bytes.
c_string_prefix :
    (n : ℕ) (text buf : List ℕ)
    → NoNul text
    → n ≤ length text
    → n < length buf
    → take n buf ≡ take n text
    → c_string (set buf n 0) ≡ take n text
c_string_prefix n text [] clean short room same = absurd (omega arith)
c_string_prefix zero text (b ∷ buf) clean short room same = refl
c_string_prefix (suc n) [] (b ∷ buf) clean short room same = absurd (omega arith)
c_string_prefix (suc n) (zero ∷ text) (b ∷ buf) (h, clean) short room same = absurd (h refl)
c_string_prefix (suc n) (suc x ∷ text) (zero ∷ buf) (h, clean) short room same = cc
c_string_prefix (suc n) (suc x ∷ text) (suc b ∷ buf) (h, clean) short room same =
    let first : suc b ≡ suc x = cc in
    let rest : take n buf ≡ take n text = cc in
    cc (first, c_string_prefix n text buf clean (omega arith) (omega arith) rest)

take-overwrite :
    (n : ℕ) (text buf : List ℕ)
    → n ≤ length text
    → length text ≤ length buf
    → take n (overwrite buf text) ≡ take n text
take-overwrite zero text buf h fits = refl
take-overwrite (suc n) [] buf h fits = absurd (omega arith)
take-overwrite (suc n) (x ∷ text) [] h fits = absurd (omega arith)
take-overwrite (suc n) (x ∷ text) (b ∷ buf) h fits =
    ap (λ t. x ∷ t) (take-overwrite n text buf (omega arith) (omega arith))

take-set : (n k : ℕ) (buf : List ℕ) → n ≤ k → take n (set buf k 0) ≡ take n buf
take-set zero k buf h = refl
take-set (suc n) k [] h = refl
take-set (suc n) zero (b ∷ buf) h = absurd (omega arith)
take-set (suc n) (suc k) (b ∷ buf) h = ap (λ t. b ∷ t) (take-set n k buf (omega arith))

take-long : (n : ℕ) (xs : List ℕ) → length xs ≤ n → take n xs ≡ xs
take-long zero [] h = refl
take-long zero (x ∷ xs) h = absurd (omega arith)
take-long (suc n) [] h = refl
take-long (suc n) (x ∷ xs) h = ap (λ t. x ∷ t) (take-long n xs (omega arith))

take-take : (k n : ℕ) (xs : List ℕ) → k ≤ n → take k (take n xs) ≡ take k xs
take-take zero n xs h = refl
take-take (suc k) zero xs h = absurd (omega arith)
take-take (suc k) (suc n) [] h = refl
take-take (suc k) (suc n) (x ∷ xs) h = ap (λ t. x ∷ t) (take-take k n xs (omega arith))

NoNul-take : (n : ℕ) (xs : List ℕ) → NoNul xs → NoNul (take n xs)
NoNul-take zero xs h = tt
NoNul-take (suc n) [] h = tt
NoNul-take (suc n) (x ∷ xs) (h, hs) = (h, NoNul-take n xs hs)

length-pos : (xs : List ℕ) → xs ≢ [] → 0 < length xs
length-pos [] h = absurd (h refl)
length-pos (x ∷ xs) h = omega arith

-- After a call has failed with an error, the message is the error's name, cut to 511 bytes.
pub last_error_message-set_error :
    (e : ErrorBuffer) (msg : List ℕ)
    → IsValid e
    → NoNul msg
    → msg ≢ []
    → (last_error_message (set_error msg e)).0 ≡ take 511 msg
unfolding last_error_message set_error
last_error_message-set_error e msg v clean some_text =
    let len : ℕ = min (length msg) 512 in
    let text : List ℕ = take len msg in
    let last : ℕ = if ltb len 512 then len else 511 in
    let all : length text ≡ len = omega (arith, length-take len msg) in
    let within : last ≤ len = ground arith in
    let room : last < length (overwrite e.buf text) =
      ground (arith, length-splice e.buf 0 text, v.full_size) in
    let nonzero : (len == 0) ≡ false = ground (arith, length-pos msg some_text) in
    let shown : c_string (set (overwrite e.buf text) last 0) ≡ take last text =
      c_string_prefix last text (overwrite e.buf text) (NoNul-take len msg clean) (omega arith) room
        (take-overwrite last text e.buf (omega arith) (omega arith)) in
    let cut : take last msg ≡ take 511 msg = elim (dec_lt (length msg) 512) [
      | yes p ↦
          let whole : last ≡ length msg = ground arith in
          rw whole
            (take-long (length msg) msg (omega arith) ∙ sym (take-long 511 msg (omega arith)))
      | no p ↦ let most : last ≡ 511 = ground arith in rw most refl
    ] in
    rw (nonzero, shown) (take-take last len msg within ∙ cut)

-- A call that clears the error leaves the empty message.
pub last_error_message-clear_error : (e : ErrorBuffer) → (last_error_message (clear_error e)).0 ≡ []
unfolding last_error_message clear_error
last_error_message-clear_error e = refl

-- `export_name` gives the name, for each index and each name of less than 512 bytes.
pub export_name_lem :
    (e : ErrorBuffer) (names : List (List ℕ)) (idx : ℕ) (name : List ℕ)
    → IsValid e
    → get_elem? names idx ≡ some name
    → NoNul name
    → length name < 512
    → ((export_name names idx e).0 ≡ some name) × IsValid (export_name names idx e).1
unfolding export_name
export_name_lem e names idx name v found clean short =
    let test : leb 512 (length name) ≡ false = ground arith in
    let written : List ℕ = overwrite e.buf name in
    let size : length written ≡ 512 = length-splice e.buf 0 name ∙ v.full_size in
    let shown : c_string (set written (length name) 0) ≡ name =
      c_string_prefix (length name) name written clean (omega arith) (omega arith)
        (take-overwrite (length name) name e.buf (omega arith) (omega arith))
      ∙ take-long (length name) name (omega arith) in
    rw (export_name, found, test)
      (
        ap some shown,
        record { full_size = length-set written (length name) 0 ∙ size; len_fits = v.len_fits },
      )

-- But it writes over a pending error's name: asked again, the message shows the export's name, as
-- far as the error's length goes.
pub last_error_message-export_name :
    (e : ErrorBuffer) (names : List (List ℕ)) (idx : ℕ) (name : List ℕ)
    → IsValid e
    → get_elem? names idx ≡ some name
    → NoNul name
    → length name < 512
    → e.len ≢ 0
    → e.len ≤ length name
    → (last_error_message (export_name names idx e).1).0 ≡ take e.len name
unfolding last_error_message export_name
last_error_message-export_name e names idx name v found clean short pending longer =
    let test : leb 512 (length name) ≡ false = ground arith in
    let written : List ℕ = overwrite e.buf name in
    let size : length written ≡ 512 = length-splice e.buf 0 name ∙ v.full_size in
    let scratch : List ℕ = set written (length name) 0 in
    let nonzero : (e.len == 0) ≡ false = ground arith in
    let room : ltb e.len 512 ≡ true = ground arith in
    let shown : c_string (set scratch e.len 0) ≡ take e.len name =
      c_string_prefix e.len name scratch clean longer
        (omega (arith, length-set written (length name) 0))
        (take-set e.len (length name) written longer
          ∙ take-overwrite e.len name e.buf longer (omega arith)) in
    rw (export_name, found, test, nonzero, room) shown
