-- ===== src/Gc/Enqueue.antt =====
-- The effect of `tryEnqueue` on each of a list of values, as a record of promises.
use zwasm.Base.{
  ℕ, ◌+◌, ◌≡◌, refl, sym, ap, ◌∙◌, arith, ◌⊎◌, inl, inr, true, some, List, [], ◌∷◌, ◌++◌, ◌==◌,
  if◌then◌else◌, length, length-append, Bool-cases, ==_iff,
}
use mathlib.Core.Path.{subst}
use zwasm.Gc.{GcSlot, obj_at, ref_addr, try_enqueue, enqueue_all}
use zwasm.Gc.Marking.{
  In, In-left, In-last, In-last_cases, marked_at, Live, unmarked, obj_at-set, marked_at-set,
  unmarked-set, try_enqueue-cases,
}

pub record Enqueued (vals : List ℕ) (slots : List GcSlot) (queue : List ℕ) (slots' : List GcSlot)
    (queue' : List ℕ) : Type 0 where
  pub same_objs : (b : ℕ) → obj_at slots' b ≡ obj_at slots b
  pub keeps : (b : ℕ) → marked_at slots b ≡ true → marked_at slots' b ≡ true
  -- What is newly marked lives, is referred to, and waits.
  pub from :
      (b : ℕ)
      → marked_at slots' b ≡ true
      → (marked_at slots b ≡ true)
        ⊎ In b queue' × Live slots b × ((val : ℕ) × In val vals × (ref_addr val ≡ some b))
  pub queued : (b : ℕ) → In b queue → In b queue'
  pub added : (b : ℕ) → In b queue' → In b queue ⊎ (marked_at slots' b ≡ true)
  pub covers :
      (val b : ℕ) → In val vals → ref_addr val ≡ some b → Live slots b → marked_at slots' b ≡ true
  pub measure : unmarked slots' + length queue' ≡ unmarked slots + length queue

Enqueued-nil : (slots : List GcSlot) (queue : List ℕ) → Enqueued [] slots queue slots queue
Enqueued-nil slots queue = record {
  same_objs = λ b. refl;
  keeps = λ b h. h;
  from = λ b h. inl h;
  queued = λ b h. h;
  added = λ b h. inl h;
  covers = λ val b h e live. elim h [ ];
  measure = refl;
}

Enqueued-one :
    (val : ℕ) (slots : List GcSlot) (queue : List ℕ)
    → Enqueued
        (val ∷ [])
        slots
        queue
        (try_enqueue val slots queue).0
        (try_enqueue val slots queue).1
Enqueued-one val slots queue = elim (try_enqueue-cases val slots queue) [
  | inl (e, already) ↦
      subst (λ (t : List GcSlot × List ℕ). Enqueued (val ∷ []) slots queue t.0 t.1) (sym e)
        (record {
          same_objs = λ b. refl;
          keeps = λ b h. h;
          from = λ b h. inl h;
          queued = λ b h. h;
          added = λ b h. inl h;
          covers = λ v b h f live. elim h [
            | inl same ↦ already b (ap ref_addr (sym same) ∙ f) live
            | inr h' ↦ elim h' [ ]
          ];
          measure = refl;
        })
  | inr (a, s, r, f, live, m, e) ↦
      subst (λ (t : List GcSlot × List ℕ). Enqueued (val ∷ []) slots queue t.0 t.1) (sym e)
        (record {
          same_objs = λ b. obj_at-set slots a b s f;
          keeps = λ b h. marked_at-set slots a b s f ∙ ground (arith, h);
          from = λ b h. elim (Bool-cases (a == b)) [
            | inl t ↦
                let same : a ≡ b = (==_iff a b).0 t in
                inr (
                  subst (λ x. In x (queue ++ a ∷ [])) same (In-last a queue),
                  subst (Live slots) same live,
                  (val, inl refl, r ∙ ap some same),
                )
            | inr t ↦
                let old : marked_at slots b ≡ true =
                  ap (λ x. if x then true else marked_at slots b) (sym t)
                  ∙ sym (marked_at-set slots a b s f)
                  ∙ h in
                inl old
          ];
          queued = λ b h. In-left b queue (a ∷ []) h;
          added = λ b h. elim (In-last_cases b a queue h) [
            | inl old ↦ inl old
            | inr last ↦ inr (
                marked_at-set slots a b s f
                ∙ ap (λ x. if x then true else marked_at slots b) ((==_iff a b).1 (sym last)))
          ];
          covers = λ v b h k alive. elim h [
            | inl same ↦
                let there : a ≡ b = cc (r, k, ap ref_addr same) in
                marked_at-set slots a b s f
                ∙ ap (λ x. if x then true else marked_at slots b) ((==_iff a b).1 there)
            | inr h' ↦ elim h' [ ]
          ];
          measure = omega (arith, unmarked-set slots a s f m, length-append queue (a ∷ []));
        })
]

Enqueued-cons :
    (val : ℕ) (vals : List ℕ) (s0 : List GcSlot) (q0 : List ℕ) (s1 : List GcSlot) (q1 : List ℕ)
    → (s2 : List GcSlot) (q2 : List ℕ) → Enqueued (val ∷ []) s0 q0 s1 q1
    → Enqueued vals s1 q1 s2 q2
    → Enqueued (val ∷ vals) s0 q0 s2 q2
Enqueued-cons val vals s0 q0 s1 q1 s2 q2 first rest = record {
  same_objs = λ b. rest.same_objs b ∙ first.same_objs b;
  keeps = λ b h. rest.keeps b (first.keeps b h);
  from = λ b h. elim (rest.from b h) [
    | inl old ↦ elim (first.from b old) [
      | inl older ↦ inl older
      | inr (waits, live, (v, is_val, r)) ↦ inr (
        rest.queued b waits,
        live,
        (v, elim is_val [ inl same ↦ inl same | inr h' ↦ elim h' [ ] ], r),
      )
    ]
    | inr (waits, (obj, live), (v, is_val, r)) ↦
        inr (waits, (obj, sym (first.same_objs b) ∙ live), (v, inr is_val, r))
  ];
  queued = λ b h. rest.queued b (first.queued b h);
  added = λ b h. elim (rest.added b h) [
    | inl old ↦ elim (first.added b old) [ inl older ↦ inl older | inr m ↦ inr (rest.keeps b m) ]
    | inr m ↦ inr m
  ];
  covers = λ v b h r (obj, live). elim h [
    | inl same ↦ rest.keeps b (first.covers v b (inl same) r (obj, live))
    | inr h' ↦ rest.covers v b h' r (obj, first.same_objs b ∙ live)
  ];
  measure = rest.measure ∙ first.measure;
}

-- All of the values.
pub enqueue_all-Enqueued :
    (vals : List ℕ) (slots : List GcSlot) (queue : List ℕ)
    → Enqueued vals slots queue (enqueue_all vals slots queue).0 (enqueue_all vals slots queue).1
unfolding enqueue_all
enqueue_all-Enqueued [] slots queue = Enqueued-nil slots queue
enqueue_all-Enqueued (val ∷ vals) slots queue =
    Enqueued-cons val vals slots queue (try_enqueue val slots queue).0
      (try_enqueue val slots queue).1 _ _ (Enqueued-one val slots queue)
      (enqueue_all-Enqueued vals (try_enqueue val slots queue).0 (try_enqueue val slots queue).1)
