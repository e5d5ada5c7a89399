-- ===== src/Dispatch/Tests.antt =====
-- A dispatch of five tasks to two workers and the main thread, and the theorems on it.
use bc_concurrency.Base.{
  ℕ, ◌*◌, ◌<◌, ◌≤◌, ◌≡◌, ◌≢◌, ◌⊎◌, refl, true, false, some, List, [], ◌∷◌, ◌++◌, length, ltb,
  if◌then◌else◌, update, arith,
}
use bc_concurrency.Allocator.Bump.{BumpHeap, empty_heap, bump_allocator, bump_allocator-IsAllocator}
use bc_concurrency.Dispatch.{
  Stage, Round, refused, ran, grow, assignment_count, assignments, dispatched, share_out,
  distribute, dispatch_and_wait,
}
use bc_concurrency.Dispatch.Exact.{tasks_run, dispatch_exact}
use bc_concurrency.Dispatch.Submission.{
  Entry, Vector, IsVector, submit_batch, tasks_for, batch_cases,
}
use bc_concurrency.Dispatch.Memory.{dispatch_array}

-- Five tasks, with room for two in the dispatch array.
abbrev five : Stage ℕ
five = record { staging = 10 ∷ 11 ∷ 12 ∷ 13 ∷ 14 ∷ []; dispatch_tasks = 7; dispatch_capacity = 2 }

abbrev emptied : Stage ℕ
emptied = record { staging = []; dispatch_tasks = 4096; dispatch_capacity = 8 }

abbrev five_round : Round ℕ
five_round = ran (14 ∷ []) ((10 ∷ 11 ∷ []) ∷ (12 ∷ 13 ∷ []) ∷ [])

abbrev heap_after : BumpHeap
heap_after = bump_allocator.free (bump_allocator.allocate empty_heap 128).0 7

five_run :
    dispatch_and_wait bump_allocator 64 true empty_heap 2 five
    ≡ some (heap_after, emptied, five_round)
unfolding dispatch_and_wait distribute grow share_out assignments assignment_count dispatched
five_run = refl

dispatch_exact_example :
    ((five_round ≢ refused) × (tasks_run five_round ≡ five.staging) × (emptied.staging ≡ []))
    ⊎ ((five_round ≡ refused) × (emptied ≡ five))
dispatch_exact_example =
    dispatch_exact bump_allocator 64 true empty_heap 2 five {h' = heap_after} (omega arith)
      (omega arith) five_run

-- An array that has room for six tasks in all.
abbrev six : Vector (Entry ℕ ℕ)
six = record {
  State = List (Entry ℕ ℕ);
  entries = λ l. l;
  push = λ l x. if ltb (length l) 6 then (l ++ x ∷ [], true) else (l, false);
}

six-IsVector : IsVector six
six-IsVector = record { push_true = λ s x e. ground arith; push_false = λ s x e. ground arith }

abbrev task : ℕ → Entry ℕ ℕ
task x = record { task_function = 9; task_argument = x }

batch_cases_example :
    (((submit_batch six 9 (λ i. i * i) 4 (task 100 ∷ task 101 ∷ task 102 ∷ [])).1 ≡ true)
      × (0 < 4)
      × ((submit_batch six 9 (λ i. i * i) 4 (task 100 ∷ task 101 ∷ task 102 ∷ [])).0
          ≡ task 100 ∷ task 101 ∷ task 102 ∷ tasks_for six 9 (λ i. i * i) 4 0))
    ⊎ (((submit_batch six 9 (λ i. i * i) 4 (task 100 ∷ task 101 ∷ task 102 ∷ [])).1 ≡ false)
        × (k : ℕ) × ((k < 4) ⊎ ((k ≡ 0) × (◌≡◌ {A = ℕ} 4 0)))
        × ((submit_batch six 9 (λ i. i * i) 4 (task 100 ∷ task 101 ∷ task 102 ∷ [])).0
            ≡ task 100 ∷ task 101 ∷ task 102 ∷ tasks_for six 9 (λ i. i * i) k 0))
batch_cases_example =
    batch_cases six six-IsVector 9 (λ i. i * i) 4 (task 100 ∷ task 101 ∷ task 102 ∷ [])

dispatch_array_example :
    (((q : ℕ) → bump_allocator.live heap_after q ≡ bump_allocator.live empty_heap q)
      × (emptied.dispatch_tasks ≡ five.dispatch_tasks)
      × (emptied.dispatch_capacity ≡ five.dispatch_capacity)
      × ((length five.staging ≤ 2)
          ⊎ ((◌≡◌ {A = ℕ} 2 0) ⊎ ((length five.staging ≤ 1) ⊎ (five_round ≡ refused)))))
    ⊎ ((five_round ≢ refused)
        × ((bump_allocator.allocate empty_heap (8 * 16)).1 ≡ some 4096)
        × (length five.staging ≤ 8)
        × (8 < 2 * length five.staging)
        × ((q : ℕ)
            → bump_allocator.live heap_after q
              ≡ update (update (bump_allocator.live empty_heap) 4096 true) 7 false q))
dispatch_array_example =
    dispatch_array bump_allocator bump_allocator-IsAllocator 64 true empty_heap 2 five (omega arith)
      (omega arith) five_run
