-- ===== src/Memory/Wait/Leave.antt =====
-- src/memory.zig, `atomicWait32` and `removeWaiter`: a place in the queue does not stay valid.
use mathlib.Core.List.{append_assoc}
use zwasm.Base.{
  ℕ, zero, suc, ◌+◌, ◌≤◌, ◌≡◌, refl, sym, ap, ◌∙◌, arith, Bool, true, false, some, List, [], ◌∷◌,
  ◌++◌, length, length-append, if◌then◌else◌,
}
use zwasm.Memory.{Memory, Waiter, Result, panic, ok, err, read, out_of_bounds}
use zwasm.Memory.Wait.{waits, waiters, enter_wait, remove_waiter, leave_wait}

remove_waiter_past : (i : ℕ) (ws : List Waiter) → length ws ≤ i → remove_waiter i ws ≡ err panic
unfolding remove_waiter
remove_waiter_past i [] h = refl
remove_waiter_past zero (w ∷ ws) h = absurd (omega arith)
remove_waiter_past (suc i) (w ∷ ws) h = rw (remove_waiter_past i ws (omega arith))

remove_waiter-append :
    (w : Waiter) (ws rest : List Waiter)
    → remove_waiter (length ws) (ws ++ w ∷ rest) ≡ ok (ws ++ rest)
unfolding remove_waiter
remove_waiter-append w [] rest = refl
remove_waiter-append w (v ∷ ws) rest = rw (remove_waiter-append w ws rest)

abbrev pub waiter_at : ℕ → Waiter
waiter_at addr = record { addr = addr; signaled = false }

-- What the later of two neighbours behind `ws` leaves when the earlier has left before it, and `later`
-- wait behind them: it stays in the queue itself, and the one behind it is gone; or the program stops.
abbrev pub overtaken : Memory → List Waiter → Waiter → List Waiter → Bool → Result ℕ × Memory
overtaken m ws b [] timed_out = (err panic, record m { wait_queue = some (ws ++ b ∷ []) })
overtaken m ws b (c ∷ rest) timed_out =
    (ok (if timed_out then 2 else 0), record m { wait_queue = some (ws ++ b ∷ rest) })

-- `m` with this queue.
abbrev pub queued : List Waiter → Memory → Memory
queued ws m = record m { wait_queue = some ws }

enter_wait-waits :
    (m : Memory) (width addr expected : ℕ) (ws : List Waiter)
    → m.is_shared_memory ≡ true
    → read width 0 addr m ≡ ok expected
    → waiters m.wait_queue ≡ ws
    → enter_wait width addr expected true m
      ≡ (ok (waits (length ws)), queued (ws ++ waiter_at addr ∷ []) m)
unfolding enter_wait
enter_wait-waits m width addr expected ws shared loaded at = ground (arith, shared, loaded, at)

leave_wait-removes :
    (m : Memory) (ws rest : List Waiter) (a : Waiter) (timed_out : Bool)
    → leave_wait (length ws) timed_out (queued (ws ++ a ∷ rest) m)
      ≡ (ok (if timed_out then 2 else 0), queued (ws ++ rest) m)
unfolding leave_wait
leave_wait-removes m ws rest a timed_out = rw (leave_wait, remove_waiter-append a ws rest) refl

leave_wait-next :
    (m : Memory) (ws later : List Waiter) (b : Waiter) (timed_out : Bool)
    → leave_wait (length ws + 1) timed_out (queued (ws ++ b ∷ later) m)
      ≡ overtaken m ws b later timed_out
unfolding leave_wait
leave_wait-next m ws [] b timed_out =
    rw
      (
        leave_wait,
        remove_waiter_past (length ws + 1) (ws ++ b ∷ [])
            (omega (arith, length-append ws (b ∷ []))),
      )
      refl
leave_wait-next m ws (c ∷ rest) b timed_out =
    let before : List Waiter = ws ++ b ∷ [] in
    let size : length before ≡ length ws + 1 = omega (arith, length-append ws (b ∷ [])) in
    let whole : (later : List Waiter) → before ++ later ≡ ws ++ b ∷ later =
      λ later. append_assoc ws (b ∷ []) later in
    ap (λ (i : ℕ). leave_wait i timed_out (queued (ws ++ b ∷ c ∷ rest) m)) (sym size)
    ∙ ap (λ q. leave_wait (length before) timed_out (queued q m)) (sym (whole (c ∷ rest)))
    ∙ leave_wait-removes m before rest c timed_out
    ∙ ap (λ q. (ok (if timed_out then 2 else 0), queued q m)) (whole rest)

-- Of two threads that enter the queue of a shared memory one behind the other, and with any others
-- behind them, the earlier leaves first. It takes itself off. The later then leaves by the place that it
-- got when it entered: it takes the thread behind it off and stays in the queue itself, or, when there is
-- none, it stops the program.
pub leave_wait-overtaken :
    (m : Memory) (width_a addr_a a width_b addr_b b : ℕ) (later : List Waiter)
    (timed_a timed_b : Bool)
    → m.is_shared_memory ≡ true
    → read width_a 0 addr_a m ≡ ok a
    → read width_b 0 addr_b m ≡ ok b
    → (m_a : Memory) × (m_b : Memory) × (left : Memory) × (enter_wait width_a addr_a a true m
        ≡ (ok (waits (length (waiters m.wait_queue))), m_a))
      × (enter_wait width_b addr_b b true m_a
          ≡ (ok (waits (length (waiters m.wait_queue) + 1)), m_b))
      × (leave_wait
            (length (waiters m.wait_queue))
            timed_a
            (queued (waiters m_b.wait_queue ++ later) m_b)
          ≡ (ok (if timed_a then 2 else 0), left))
      × (left.wait_queue ≡ some (waiters m.wait_queue ++ waiter_at addr_b ∷ later))
      × (leave_wait (length (waiters m.wait_queue) + 1) timed_b left
          ≡ overtaken m (waiters m.wait_queue) (waiter_at addr_b) later timed_b)
unfolding read out_of_bounds
leave_wait-overtaken m width_a addr_a a width_b addr_b b later timed_a timed_b shared loaded_a
      loaded_b =
    let ws : List Waiter = waiters m.wait_queue in
    let wa : Waiter = waiter_at addr_a in
    let wb : Waiter = waiter_at addr_b in
    let one : List Waiter = ws ++ wa ∷ [] in
    let size : length one ≡ length ws + 1 = omega (arith, length-append ws (wa ∷ [])) in
    let split : (one ++ wb ∷ []) ++ later ≡ ws ++ wa ∷ wb ∷ later =
      append_assoc one (wb ∷ []) later ∙ append_assoc ws (wa ∷ []) (wb ∷ later) in
    (
      queued one m,
      queued (one ++ wb ∷ []) m,
      queued (ws ++ wb ∷ later) m,
      enter_wait-waits m width_a addr_a a ws shared loaded_a refl,
      enter_wait-waits (queued one m) width_b addr_b b one shared loaded_b refl
          ∙ ap (λ (i : ℕ). (ok (waits i), queued (one ++ wb ∷ []) m)) size,
      ap (λ q. leave_wait (length ws) timed_a (queued q m)) split
          ∙ leave_wait-removes m ws (wb ∷ later) wa timed_a,
      refl,
      leave_wait-next m ws later wb timed_b,
    )
