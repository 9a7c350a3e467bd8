-- ===== src/CApi/Imports/Names.antt =====
-- The names of the modules in a collection.
use mathlib.Core.Path.{subst}
use zwasm.Base.{
  ◌≡◌, refl, sym, ap, ◌∙◌, arith, List, [], ◌∷◌, ◌++◌, map, ◌⊎◌, inl, inr, All, true, Bool-cases,
}
use zwasm.CApi.Header.{Bytes}
use zwasm.CApi.Imports.{ImportItem, bytes_eq, found, module_names}

-- A name is in a list.
abbrev pub In : Bytes → List Bytes → Type 0
In n [] = ⊥
In n (m ∷ ms) = (m ≡ n) ⊎ In n ms

-- Names that differ pairwise.
abbrev pub Distinct : List Bytes → Type 0
Distinct [] = Unit
Distinct (n ∷ ns) = (In n ns → ⊥) × Distinct ns

-- The name of a function's module.
abbrev pub module_of : ImportItem → Bytes
module_of item = item.module_name

bytes_eq_refl : (xs : Bytes) → bytes_eq xs xs ≡ true
unfolding bytes_eq
bytes_eq_refl [] = refl
bytes_eq_refl (x ∷ xs) = ground (arith, bytes_eq_refl xs)

bytes_eq_sound : (xs ys : Bytes) → bytes_eq xs ys ≡ true → xs ≡ ys
unfolding bytes_eq
bytes_eq_sound [] [] h = refl
bytes_eq_sound [] (y ∷ ys) h = absurd (cc)
bytes_eq_sound (x ∷ xs) [] h = absurd (cc)
bytes_eq_sound (x ∷ xs) (y ∷ ys) h =
    let rest : bytes_eq xs ys ≡ true = ground (arith, h) in
    let first : x ≡ y = ground (arith, h) in
    ap (λ z. z ∷ xs) first ∙ ap (λ zs. y ∷ zs) (bytes_eq_sound xs ys rest)

found-In : (name : Bytes) (names : List Bytes) → found name names ≡ true → In name names
unfolding found
found-In name [] h = absurd (cc)
found-In name (n ∷ names) h = elim (Bool-cases (bytes_eq n name)) [
  | inl e ↦ inl (bytes_eq_sound n name e)
  | inr e ↦ inr (found-In name names (ground (arith, h, e)))
]

In-found : (name : Bytes) (names : List Bytes) → In name names → found name names ≡ true
unfolding found
In-found name [] i = absurd i
In-found name (n ∷ names) (inl e) =
    let same : bytes_eq n name ≡ true = subst (λ x. bytes_eq n x ≡ true) e (bytes_eq_refl n) in
    rw same refl
In-found name (n ∷ names) (inr i) = rw (In-found name names i) (ground arith)

In-append_left : (name : Bytes) (ns ms : List Bytes) → In name ns → In name (ns ++ ms)
In-append_left name [] ms i = absurd i
In-append_left name (n ∷ ns) ms (inl e) = inl e
In-append_left name (n ∷ ns) ms (inr i) = inr (In-append_left name ns ms i)

In-append_last : (name : Bytes) (ns : List Bytes) → In name (ns ++ name ∷ [])
In-append_last name [] = inl refl
In-append_last name (n ∷ ns) = inr (In-append_last name ns)

In-append_cases :
    (name n : Bytes) (ns : List Bytes) → In name (ns ++ n ∷ []) → (In name ns) ⊎ (n ≡ name)
In-append_cases name n [] (inl e) = inr e
In-append_cases name n [] (inr i) = absurd i
In-append_cases name n (m ∷ ns) (inl e) = inl (inl e)
In-append_cases name n (m ∷ ns) (inr i) = elim (In-append_cases name n ns i) [
  | inl j ↦ inl (inr j)
  | inr e ↦ inr e
]

Distinct-append :
    (n : Bytes) (names : List Bytes)
    → Distinct names
    → (In n names → ⊥)
    → Distinct (names ++ n ∷ [])
Distinct-append n [] d h = (λ i. i, tt)
Distinct-append n (m ∷ names) (fresh, d) h = (
  λ i. elim (In-append_cases m n names i) [ inl j ↦ fresh j | inr e ↦ h (inl (sym e)) ],
  Distinct-append n names d (λ i. h (inr i)),
)

-- The loop from the names it has: what it ends with differs pairwise, and has those names, the modules
-- of the items it has still to see, and no others.
record Collects (items : List ImportItem) (names out : List Bytes) : Type 0 where
  pub distinct : Distinct out
  pub keeps : (name : Bytes) → In name names → In name out
  pub covers : All (λ (item : ImportItem). In item.module_name out) items
  pub only : (name : Bytes) → In name out → (In name names) ⊎ (In name (map module_of items))

module_names-Collects :
    (items : List ImportItem) (names : List Bytes)
    → Distinct names
    → Collects items names (module_names items names)
unfolding module_names
module_names-Collects [] names d = record {
  distinct = d;
  keeps = λ name i. i;
  covers = tt;
  only = λ name i. inl i;
}
module_names-Collects (item ∷ items) names d = elim (Bool-cases (found item.module_name names)) [
  | inl e ↦
      let rest : Collects items names (module_names items names) =
        module_names-Collects items names d in
      let here : In item.module_name names = found-In item.module_name names e in
      rw e (record {
        distinct = rest.distinct;
        keeps = rest.keeps;
        covers = (rest.keeps item.module_name here, rest.covers);
        only = λ name i. elim (rest.only name i) [ inl j ↦ inl j | inr j ↦ inr (inr j) ];
      })
  | inr e ↦
      let name : Bytes = item.module_name in
      let more : List Bytes = names ++ name ∷ [] in
      let fresh : In name names → ⊥ = λ i. absurd (ground (arith, In-found name names i)) in
      let rest : Collects items more (module_names items more) =
        module_names-Collects items more (Distinct-append name names d fresh) in
      rw e (record {
        distinct = rest.distinct;
        keeps = λ n i. rest.keeps n (In-append_left n names (name ∷ []) i);
        covers = (rest.keeps name (In-append_last name names), rest.covers);
        only = λ n i. elim (rest.only n i) [
          | inl j ↦ elim (In-append_cases n name names j) [
            | inl k ↦ inl k
            | inr same ↦ inr (inl same)
          ]
          | inr j ↦ inr (inr j)
        ];
      })
]

-- The modules that the loader gets differ pairwise; each function's module is among them; and each of
-- them is the module of some function.
pub module_names_lem :
    (items : List ImportItem)
    → Distinct (module_names items [])
      × All (λ (item : ImportItem). In item.module_name (module_names items [])) items
      × All (λ name. In name (map module_of items)) (module_names items [])
module_names_lem items =
    let all : Collects items [] (module_names items []) = module_names-Collects items [] tt in
    (
      all.distinct,
      all.covers,
      all_in (module_names items [])
          (λ name i. elim (all.only name i) [ inl j ↦ absurd j | inr j ↦ j ]),
    )
  where
    all_in :
        (ns : List Bytes)
        → ((name : Bytes) → In name ns → In name (map module_of items))
        → All (λ name. In name (map module_of items)) ns
    all_in [] g = tt
    all_in (n ∷ ns) g = (g n (inl refl), all_in ns (λ name i. g name (inr i)))
