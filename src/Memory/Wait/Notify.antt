-- ===== src/Memory/Wait/Notify.antt =====
-- src/memory.zig, `atomicNotify`: whom it wakes, and how it fails.
use zwasm.Base.{
  ℕ, zero, suc, ◌+◌, ◌^◌, ◌≤◌, ◌<◌, ◌≡◌, refl, sym, ap, ◌∙◌, arith, min, Option, none, some, ◌⊎◌,
  inl, inr, Bool-cases, List, [], ◌∷◌, ◌==◌, if◌then◌else◌,
}
use zwasm.Memory.{Memory, Waiter, panic, ok, err, read}
use zwasm.Memory.Wait.{signal, waiters, notify_loop, notify_queue, atomic_notify}

-- How many of the queue wait at `addr`.
abbrev pub waiting : ℕ → List Waiter → ℕ
waiting addr [] = 0
waiting addr (w ∷ ws) = if w.addr == addr then waiting addr ws + 1 else waiting addr ws

-- The queue with the first `n` waiters at `addr` signalled, and all others as they were.
abbrev pub woken_first : ℕ → ℕ → List Waiter → List Waiter
woken_first addr n [] = []
woken_first addr zero (w ∷ ws) = w ∷ ws
woken_first addr (suc n) (w ∷ ws) =
    if w.addr == addr then signal w ∷ woken_first addr n ws else w ∷ woken_first addr (suc n) ws

notify_loop_lem :
    (addr count n woken : ℕ) (ws : List Waiter)
    → count < 2 ^ 31
    → count ≡ woken + n
    → notify_loop addr count ws woken ≡ ok (woken + min n (waiting addr ws), woken_first addr n ws)
unfolding notify_loop
notify_loop_lem addr count n woken [] small e = ground arith
notify_loop_lem addr count zero woken (w ∷ ws) small e = ground arith
notify_loop_lem addr count (suc n) woken (w ∷ ws) small e = ground (
  arith,
  notify_loop_lem addr count n (woken + 1) ws small,
  notify_loop_lem addr count (suc n) woken ws small e,
)

woken_none : (addr : ℕ) (ws : List Waiter) → woken_first addr 0 ws ≡ ws
woken_none addr [] = refl
woken_none addr (w ∷ ws) = refl

-- The queue as the loop of `atomicNotify` leaves it.
abbrev pub notified : ℕ → ℕ → Option (List Waiter) → Option (List Waiter)
notified addr count none = none
notified addr count (some ws) = some (woken_first addr count ws)

nobody : (addr count : ℕ) → notify_loop addr count [] 0 ≡ ok (0, [])
unfolding notify_loop
nobody addr count = refl

notify_queue_lem :
    (m : Memory) (addr count : ℕ) (queue : Option (List Waiter))
    → m.wait_queue ≡ queue
    → (count < 2 ^ 31) ⊎ (waiters queue ≡ [])
    → notify_queue addr count queue m ≡ (
      ok (min count (waiting addr (waiters queue))),
      record m { wait_queue = notified addr count queue },
    )
notify_queue_lem m addr count none at fits =
    ap (λ (n : ℕ). (ok n, m)) (omega arith)
    ∙ ap (λ q. (ok (min count 0), record m { wait_queue = q })) at
notify_queue_lem m addr count (some []) at fits =
    rw (notify_queue, nobody addr count)
      (ap (λ (n : ℕ). (ok n, record m { wait_queue = some [] })) (omega arith))
notify_queue_lem m addr count (some (w ∷ ws)) at (inr e) = absurd (cc)
notify_queue_lem m addr count (some (w ∷ ws)) at (inl small) =
    rw (notify_queue, notify_loop_lem addr count count 0 (w ∷ ws) small (omega arith))
      (ap (λ (n : ℕ). (ok n, record m { wait_queue = some (woken_first addr count (w ∷ ws)) }))
        (omega arith))

notified_none : (addr : ℕ) (queue : Option (List Waiter)) → notified addr 0 queue ≡ queue
notified_none addr none = refl
notified_none addr (some ws) = ap some (woken_none addr ws)

-- `atomicNotify` on an address in bounds, for a count that fits an i32, or for any count when nobody
-- waits: it signals the first waiters at that address, in the order in which they came, as many as
-- asked for or as there are, leaves every other waiter alone, and returns how many it signalled. Only
-- the queue of the memory changes; without a queue there is nobody to signal.
pub atomic_notify_lem :
    (m : Memory) (addr count x : ℕ)
    → read 4 0 addr m ≡ ok x
    → (count < 2 ^ 31) ⊎ (waiters m.wait_queue ≡ [])
    → atomic_notify addr count m ≡ (
      ok (min count (waiting addr (waiters m.wait_queue))),
      record m { wait_queue = notified addr count m.wait_queue },
    )
unfolding atomic_notify
atomic_notify_lem m addr count x loaded fits = elim (Bool-cases (count == 0)) [
  | inl e ↦
      let zero_asked : count ≡ 0 = ground arith in
      rw (atomic_notify, loaded, e)
        (ap (λ (n : ℕ). (ok n, m)) (omega arith)
          ∙ ap
              (λ q.
                (ok (min count (waiting addr (waiters m.wait_queue))), record m { wait_queue = q }))
              (sym (
                ap (λ (c : ℕ). notified addr c m.wait_queue) zero_asked
                ∙ notified_none addr m.wait_queue)))
  | inr e ↦ rw (atomic_notify, loaded, e) (notify_queue_lem m addr count m.wait_queue refl fits)
]

-- A count from 2 ^ 31 on, such as the 0xffffffff that means "all", stops the program when anybody
-- waits in the queue, at whatever address.
pub atomic_notify_panics :
    (m : Memory) (addr count x : ℕ) (w : Waiter) (ws : List Waiter)
    → read 4 0 addr m ≡ ok x
    → m.wait_queue ≡ some (w ∷ ws)
    → 2 ^ 31 ≤ count
    → (atomic_notify addr count m).0 ≡ err panic
unfolding atomic_notify notify_loop
atomic_notify_panics m addr count x w ws loaded queue big = ground (arith, loaded, queue)
