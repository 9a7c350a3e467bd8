-- ===== src/Memory/Wait.antt =====
-- src/memory.zig, the wait queue of a shared memory: `atomicWait32`, `atomicWait64`, `atomicNotify`.
-- A wait is two steps: it enters the queue under the mutex, and leaves it when it is woken or its
-- time is over. Between them other threads run.
pub mod Notify
pub mod Leave
use zwasm.Base.{
  ℕ, zero, suc, ◌+◌, ◌^◌, Bool, true, false, not, Option, none, some, List, [], ◌∷◌, ◌++◌, ltb, leb,
  ◌==◌, if◌then◌else◌, length,
}
use zwasm.Memory.{Memory, Waiter, Error, trap, panic, Result, ok, err, read}

-- `Condition.signal`: a condition with one waiter takes one signal, a second changes nothing.
abbrev pub signal : Waiter → Waiter
signal w = record w { signaled = true }

-- The loop of `atomicNotify` from one waiter on. `@intCast(count)` to i32 stands in its test, after
-- the test for the end of the queue.
unfoldable pub notify_loop : ℕ → ℕ → List Waiter → ℕ → Result (ℕ × List Waiter)
notify_loop addr count [] woken = ok (woken, [])
notify_loop addr count (w ∷ ws) woken =
    let matches = w.addr == addr in
    let rest = notify_loop addr count ws (if matches then woken + 1 else woken) in
    if leb (2 ^ 31) count
    then err panic
    else if ltb woken count
    then elim rest [ ok (n, ws') ↦ ok (n, (if matches then signal w else w) ∷ ws') | err e ↦ err e ]
    else ok (woken, w ∷ ws)

abbrev pub notify_queue : ℕ → ℕ → Option (List Waiter) → Memory → Result ℕ × Memory
notify_queue addr count none m = (ok 0, m)
notify_queue addr count (some ws) m = elim (notify_loop addr count ws 0) [
  | ok (n, ws') ↦ (ok n, record m { wait_queue = some ws' })
  | err e ↦ (err e, m)
]

unfoldable pub atomic_notify : ℕ → ℕ → Memory → Result ℕ × Memory
atomic_notify addr count m = elim (read 4 0 addr m) [
  | err e ↦ (err e, m)
  | ok _ ↦ if count == 0 then (ok 0, m) else notify_queue addr count m.wait_queue m
]

-- How a wait begins: it ends at once with a result, or it is the `idx`-th of the queue.
pub data Entered : Type 0 where
  done : ℕ → Entered
  waits : ℕ → Entered

abbrev pub waiters : Option (List Waiter) → List Waiter
waiters none = []
waiters (some ws) = ws

-- `width` is 4 or 8, `appended` whether the allocator made room. The result 2 is "timed out".
pub enter_wait : ℕ → ℕ → ℕ → Bool → Memory → Result Entered × Memory
enter_wait width addr expected appended m =
    if not m.is_shared_memory then (err trap, m) else elim (read width 0 addr m) [
      | err e ↦ (err e, m)
      | ok loaded ↦
          let ws = waiters m.wait_queue in
          if not (loaded == expected)
          then (ok (done 1), m)
          else if appended
          then (
            ok (waits (length ws)),
            record m { wait_queue = some (ws ++ record { addr = addr; signaled = false } ∷ []) },
          )
          else (ok (done 2), record m { wait_queue = some ws })
    ]

-- `orderedRemove`: out of range it is a panic.
unfoldable pub remove_waiter : ℕ → List Waiter → Result (List Waiter)
remove_waiter idx [] = err panic
remove_waiter zero (w ∷ ws) = ok ws
remove_waiter (suc idx) (w ∷ ws) = elim (remove_waiter idx ws) [
  | ok ws' ↦ ok (w ∷ ws')
  | err e ↦ err e
]

-- The second step: the thread removes the place that it had when it entered.
pub leave_wait : ℕ → Bool → Memory → Result ℕ × Memory
leave_wait idx timed_out m = elim (remove_waiter idx (waiters m.wait_queue)) [
  | ok ws ↦ (ok (if timed_out then 2 else 0), record m { wait_queue = some ws })
  | err e ↦ (err e, m)
]
