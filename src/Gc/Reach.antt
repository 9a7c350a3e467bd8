-- ===== src/Gc/Reach.antt =====
-- Which objects the roots reach, and that the mark phase marks exactly these.
use mathlib.Core.Path.{subst}
use zwasm.Base.{
  ℕ, zero, suc, ◌+◌, ◌≤◌, ◌≡◌, refl, sym, ap, ◌∙◌, arith, ◌⊎◌, ◌↔◌, inl, inr, true, false, Option,
  none, some, List, [], ◌∷◌, length,
}
use zwasm.Gc.{
  GcObject, GcSlot, obj_at, ref_addr, values, values_at, enqueue_all, drain_mark_queue, mark_roots,
}
use zwasm.Gc.Marking.{In, marked_at, Live, unmarked}
use zwasm.Gc.Enqueue.{Enqueued, enqueue_all-Enqueued}

-- `b` lives, and one of the values refers to it.
abbrev pub Refers : List GcSlot → List ℕ → ℕ → Type 0
Refers slots vals b = Live slots b × ((val : ℕ) × In val vals × (ref_addr val ≡ some b))

pub data Reachable (slots : List GcSlot) (roots : List ℕ) : ℕ → Type 0 where
  root : {b : ℕ} → Refers slots roots b → Reachable slots roots b
  field :
      {a b : ℕ}
      → Reachable slots roots a
      → Refers slots (values_at slots a) b
      → Reachable slots roots b

-- In the middle of the mark phase, which began at `start`.
record Marked (start : List GcSlot) (roots : List ℕ) (slots : List GcSlot) (queue : List ℕ)
    : Type 0 where
  same_objs : (b : ℕ) → obj_at slots b ≡ obj_at start b
  sound : (b : ℕ) → marked_at slots b ≡ true → Reachable start roots b
  -- What is marked waits, or all that it refers to is marked.
  closed :
      (a : ℕ)
      → marked_at slots a ≡ true
      → In a queue ⊎ ((b : ℕ) → Refers start (values_at start a) b → marked_at slots b ≡ true)
  roots_marked : (b : ℕ) → Refers start roots b → marked_at slots b ≡ true
  waiting : (a : ℕ) → In a queue → Reachable start roots a

pub values_at-same :
    (start slots : List GcSlot) (a : ℕ)
    → obj_at slots a ≡ obj_at start a
    → values_at slots a ≡ values_at start a
values_at-same start slots a e =
    ap (λ (o : Option GcObject). elim o [ none ↦ [] | some obj ↦ values obj ]) e

Marked-step :
    (start : List GcSlot) (roots : List ℕ) (slots : List GcSlot) (addr : ℕ) (queue : List ℕ)
    → (slots' : List GcSlot) (queue' : List ℕ) → Marked start roots slots (addr ∷ queue)
    → Enqueued (values_at start addr) slots queue slots' queue'
    → Marked start roots slots' queue'
Marked-step start roots slots addr queue slots' queue' m q =
    let sound' : (b : ℕ) → marked_at slots' b ≡ true → Reachable start roots b = λ b h.
      elim (q.from b h) [
        | inl old ↦ m.sound b old
        | inr (waits, (obj, live), (v, is_val, r)) ↦
            field (m.waiting addr (inl refl)) ((obj, sym (m.same_objs b) ∙ live), (v, is_val, r))
      ] in
    let children : (b : ℕ) → Refers start (values_at start addr) b → marked_at slots' b ≡ true =
      λ b ((obj, live), (v, is_val, r)). q.covers v b is_val r (obj, m.same_objs b ∙ live) in
    record {
      same_objs = λ b. q.same_objs b ∙ m.same_objs b;
      sound = sound';
      closed = λ a h. elim (q.from a h) [
        | inl old ↦ elim (m.closed a old) [
          | inl waits ↦ elim waits [
            | inl here ↦ inr (
                subst
                  (λ x. (b : ℕ) → Refers start (values_at start x) b → marked_at slots' b ≡ true)
                  (sym here) children)
            | inr later ↦ inl (q.queued a later)
          ]
          | inr all ↦ inr (λ b refers. q.keeps b (all b refers))
        ]
        | inr (waits, live, why) ↦ inl waits
      ];
      roots_marked = λ b h. q.keeps b (m.roots_marked b h);
      waiting = λ a h. elim (q.added a h) [
        | inl old ↦ m.waiting a (inr old)
        | inr marked ↦ sound' a marked
      ];
    }

-- With enough fuel the queue runs empty.
drain-Marked :
    (fuel : ℕ) (start : List GcSlot) (roots : List ℕ) (slots : List GcSlot) (queue : List ℕ)
    → Marked start roots slots queue
    → unmarked slots + length queue ≤ fuel
    → (slots' : List GcSlot) × (drain_mark_queue fuel slots queue ≡ some slots')
      × Marked start roots slots' []
unfolding drain_mark_queue
drain-Marked fuel start roots slots [] m enough = (slots, refl, m)
drain-Marked zero start roots slots (addr ∷ queue) m enough = absurd (omega arith)
drain-Marked (suc fuel) start roots slots (addr ∷ queue) m enough =
    let same : values_at slots addr ≡ values_at start addr =
      values_at-same start slots addr (m.same_objs addr) in
    let next : List GcSlot × List ℕ = enqueue_all (values_at slots addr) slots queue in
    let q : Enqueued (values_at start addr) slots queue next.0 next.1 =
      subst (λ v. Enqueued v slots queue next.0 next.1) same
        (enqueue_all-Enqueued (values_at slots addr) slots queue) in
    drain-Marked fuel start roots next.0 next.1
      (Marked-step start roots slots addr queue next.0 next.1 m q) (omega (arith, q.measure))

unmarked-length : (slots : List GcSlot) → unmarked slots ≤ length slots
unmarked-length [] = omega arith
unmarked-length (s ∷ slots) = ground (arith, unmarked-length slots)

-- After the roots, from slots without marks.
Marked-seed :
    (roots : List ℕ) (start slots : List GcSlot) (queue : List ℕ)
    → ((b : ℕ) → marked_at start b ≡ false)
    → Enqueued roots start [] slots queue
    → Marked start roots slots queue
Marked-seed roots start slots queue clear q =
    let sound' : (b : ℕ) → marked_at slots b ≡ true → Reachable start roots b = λ b h.
      elim (q.from b h) [
        | inl old ↦ cc (old, clear b)
        | inr (waits, live, why) ↦ root (live, why)
      ] in
    record {
      same_objs = q.same_objs;
      sound = sound';
      closed = λ a h. elim (q.from a h) [
        | inl old ↦ cc (old, clear a)
        | inr (waits, live, why) ↦ inl waits
      ];
      roots_marked = λ b (live, (v, is_val, r)). q.covers v b is_val r live;
      waiting = λ a h. elim (q.added a h) [ inl old ↦ elim old [ ] | inr marked ↦ sound' a marked ];
    }

-- With the queue empty, marks are closed under reference.
Marked-all :
    (start : List GcSlot) (roots : List ℕ) (slots : List GcSlot)
    → Marked start roots slots []
    → (b : ℕ) → Reachable start roots b
    → marked_at slots b ≡ true
Marked-all start roots slots m b (root refers) = m.roots_marked b refers
Marked-all start roots slots m b (field {a} reached refers) =
    elim (m.closed a (Marked-all start roots slots m a reached)) [
      | inl waits ↦ elim waits [ ]
      | inr all ↦ all b refers
    ]

-- Marking from slots without marks ends, changes no object, and marks what the roots reach: all of
-- it and nothing else.
pub mark_roots_lem :
    (roots : List ℕ) (start : List GcSlot)
    → ((b : ℕ) → marked_at start b ≡ false)
    → (slots : List GcSlot) × (mark_roots roots start ≡ some slots)
      × ((b : ℕ) → obj_at slots b ≡ obj_at start b)
      × ((b : ℕ) → (marked_at slots b ≡ true) ↔ Reachable start roots b)
unfolding mark_roots
mark_roots_lem roots start clear =
    let seed : List GcSlot × List ℕ = enqueue_all roots start [] in
    let q : Enqueued roots start [] seed.0 seed.1 = enqueue_all-Enqueued roots start [] in
    let (slots, ends, m) =
      drain-Marked (length start) start roots seed.0 seed.1
        (Marked-seed roots start seed.0 seed.1 clear q)
        (omega (arith, q.measure, unmarked-length start)) in
    (slots, ends, m.same_objs, λ b. (m.sound b, Marked-all start roots slots m b))
