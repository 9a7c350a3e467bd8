-- ===== src/Memory/Tests.antt =====
-- Runs on small memories, with pages of one byte, and the theorems at concrete inputs.
use zwasm.Base.{
  ℕ, ◌+◌, ◌-◌, ◌^◌, ◌≡◌, refl, arith, ◌⊎◌, inl, inr, true, false, ◌&&◌, none, some, List, [], ◌∷◌,
  ◌++◌, ltb, leb, if◌then◌else◌, length, get_or, replicate, length-replicate, min,
}
use zwasm.Memory.{
  Memory, System, Waiter, ok, effective_max, grow, copy_forwards, copy_backwards, copy_within,
  out_of_bounds, read, write,
}
use zwasm.Memory.Access.{read-write, read-write_apart}
use zwasm.Memory.Move.{copy_within_lem}
use zwasm.Memory.Grow.{IsValid, Grows, Stays, grow_cases}
use zwasm.Memory.Wait.{waits, waiters, enter_wait, leave_wait, atomic_notify}
use zwasm.Memory.Wait.Notify.{waiting, notified, atomic_notify_lem}
use zwasm.Memory.Wait.Leave.{waiter_at, overtaken, queued, leave_wait-overtaken}

abbrev roomy : System
roomy = record { resize_ok = λ n. true; commit_ok = λ n. true; host_page = 4096 }

-- Eight one-byte pages, at most sixteen.
abbrev small : Memory
small = record {
  min_pages = 8;
  max = some 16;
  page_size = 1;
  contents = 1 ∷ 2 ∷ 3 ∷ 4 ∷ 5 ∷ 6 ∷ 7 ∷ 8 ∷ [];
  shared = false;
  is_shared_memory = true;
  is_64 = false;
  guard_mem = none;
  wait_queue = none;
}

small-IsValid : IsValid small
unfolding effective_max
small-IsValid = record {
  pages = 8;
  page_sizes = inl refl;
  whole = refl;
  limited = omega arith;
  untruncated = omega arith;
}

abbrev stored : Memory
stored = record small { contents = 1 ∷ 2 ∷ 0xef ∷ 0xbe ∷ 0xad ∷ 0xde ∷ 7 ∷ 8 ∷ [] }

write_run : write 4 1 1 0xdead_beef small ≡ (ok tt, stored)
unfolding write out_of_bounds
write_run = refl

read-write_example : read 4 1 1 stored ≡ ok 0xdead_beef
read-write_example = read-write small stored 4 1 1 0xdead_beef (omega arith) (omega arith) write_run

read-write_apart_example : read 2 0 6 stored ≡ read 2 0 6 small
read-write_apart_example =
    read-write_apart small stored 4 1 1 0xdead_beef 2 0 6 (omega arith) (inr (omega arith))
      write_run

overlapping : (copy_within 2 0 4 small).1.contents ≡ 1 ∷ 2 ∷ 1 ∷ 2 ∷ 3 ∷ 4 ∷ 7 ∷ 8 ∷ []
unfolding copy_within copy_backwards copy_forwards
overlapping = refl

copy_within_lem_example :
    (bytes : List ℕ) × (copy_within 2 0 4 small ≡ (ok tt, record small { contents = bytes }))
    × (length bytes ≡ 8)
    × ((j : ℕ)
        → get_or bytes j 0 ≡ (
            if leb 2 j && ltb j (2 + 4)
            then get_or small.contents (0 + (j - 2)) 0
            else get_or small.contents j 0))
copy_within_lem_example = copy_within_lem small 2 0 4 (omega arith) (omega arith)

grow_cases_example :
    Grows 3 small small-IsValid (grow roomy 3 small) ⊎ Stays small (grow roomy 3 small)
grow_cases_example = grow_cases roomy 3 small small-IsValid

-- Four GiB of zeros, in pages of one byte; `zeros` stays shut, so that nobody writes them out.
zeros : ℕ → List ℕ
zeros n = replicate n 0

length-zeros : (n : ℕ) → length (zeros n) ≡ n
unfolding zeros
length-zeros n = length-replicate n 0

abbrev huge : Memory
huge = record small { max = none; contents = zeros (2 ^ 32) }

abbrev queue : List Waiter
queue =
    record { addr = 4; signaled = false }
    ∷ record { addr = 0; signaled = false }
    ∷ record { addr = 4; signaled = false }
    ∷ record { addr = 4; signaled = false }
    ∷ []

abbrev crowded : Memory
crowded = record small { wait_queue = some queue }

loaded : read 4 0 4 crowded ≡ ok 0x0807_0605
unfolding read out_of_bounds
loaded = refl

atomic_notify_lem_example :
    atomic_notify 4 2 crowded
    ≡ (ok (min 2 (waiting 4 queue)), record crowded { wait_queue = notified 4 2 (some queue) })
atomic_notify_lem_example = atomic_notify_lem crowded 4 2 0x0807_0605 loaded (inl (omega arith))

loaded_first : read 4 0 0 crowded ≡ ok 0x0403_0201
unfolding read out_of_bounds
loaded_first = refl

abbrev third : Waiter
third = record { addr = 2; signaled = false }

leave_wait-overtaken_example :
    (m_a : Memory) × (m_b : Memory) × (left : Memory) × (enter_wait 4 4 0x0807_0605 true crowded
      ≡ (ok (waits 4), m_a))
    × (enter_wait 4 0 0x0403_0201 true m_a ≡ (ok (waits 5), m_b))
    × (leave_wait 4 true (queued (waiters m_b.wait_queue ++ third ∷ []) m_b) ≡ (ok 2, left))
    × (left.wait_queue ≡ some (queue ++ waiter_at 0 ∷ third ∷ []))
    × (leave_wait 5 false left ≡ overtaken crowded queue (waiter_at 0) (third ∷ []) false)
leave_wait-overtaken_example =
    leave_wait-overtaken crowded 4 4 0x0807_0605 4 0 0x0403_0201 (third ∷ []) true false refl loaded
      loaded_first
