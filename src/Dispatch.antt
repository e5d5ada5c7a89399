-- ===== src/Dispatch.antt =====
-- src/context/bc_concurrency.c: bc_concurrency_dispatch_and_wait, which shares the staged tasks out
-- among the workers and the main thread. A task is a value, and a run is the tasks that each side runs.
pub mod Exact
pub mod Submission
pub mod Memory
mod Tests
use bc_concurrency.Base.{
  ℕ, zero, suc, ◌+◌, ◌*◌, ◌/◌, ◌%◌, Bool, ◌||◌, Option, none, some, List, [], ◌∷◌, ◌++◌, length,
  take, drop, get_elem?, ltb, ◌==◌, if◌then◌else◌,
}
use bc_concurrency.Base.Words.{u64}
use bc_concurrency.Allocator.{Allocator}
use bc_concurrency.ParallelFor.{entry_bytes}

-- The fields of `struct bc_concurrency_context` that the function changes: `staging`,
-- `dispatch_tasks` and `dispatch_capacity`.
pub record Stage (A : Type 0) : Type 0 where
  pub staging : List A
  pub dispatch_tasks : ℕ
  pub dispatch_capacity : ℕ

-- It returns false, or it returns true after these tasks have run.
pub data Round (A : Type 0) : Type 0 where
  refused : Round A
  ran : (main : List A) (workers : List (List A)) → Round A

-- `while (new_cap < staging_count) new_cap *= 2;`, on fuel.
pub grow : ℕ → ℕ → ℕ → Option ℕ
grow zero new_cap staging_count = none
grow (suc fuel) new_cap staging_count =
    let rest = grow fuel (u64 (new_cap * 2)) staging_count in
    if ltb new_cap staging_count then rest else some new_cap

unfoldable pub assignment_count : ℕ → ℕ → ℕ → ℕ
assignment_count staging_count effective_count i =
    u64
      (staging_count / effective_count + (if ltb i (staging_count % effective_count) then 1 else 0))

module _ {A : Type 0} where
  -- The assignments `i` to `i + n - 1`, from `offset` on in `task_array`.
  unfoldable pub assignments : List A → ℕ → ℕ → ℕ → ℕ → List (List A)
  assignments tasks effective_count zero i offset = []
  assignments tasks effective_count (suc n) i offset =
      let count = assignment_count (length tasks) effective_count i in
      take count (drop offset tasks)
      ∷ assignments tasks effective_count n (i + 1) (u64 (offset + count))

  -- A worker is woken only if its assignment is not empty.
  pub dispatched : List (List A) → List (List A)
  dispatched [] = []
  dispatched ([] ∷ rest) = dispatched rest
  dispatched ((t ∷ ts) ∷ rest) = (t ∷ ts) ∷ dispatched rest

  abbrev pub assigned : Option (List A) → List A
  assigned none = []
  assigned (some ts) = ts

  pub share_out : List A → ℕ → Round A
  share_out tasks thread_count =
      let all = assignments tasks (u64 (thread_count + 1)) (u64 (thread_count + 1)) 0 0 in
      ran (assigned (get_elem? all thread_count)) (dispatched (take thread_count all))

  abbrev pub cleared : Stage A → Stage A
  cleared s = record s { staging = [] }

  module _ (a : Allocator) where
    -- From the capacity check on; `none` when the doubling loop used up its fuel.
    pub distribute : ℕ → a.Heap → ℕ → Stage A → Option (a.Heap × Stage A × Round A)
    distribute fuel h thread_count s =
        let grown : Option (a.Heap × Stage A × Round A) =
          elim (grow fuel s.dispatch_capacity (length s.staging)) [
            | none ↦ none
            | some new_cap ↦
                let (h', block) = a.allocate h (u64 (new_cap * entry_bytes)) in
                elim block [
                  | none ↦ some (h', s, refused)
                  | some new_tasks ↦ some (
                    a.free h' s.dispatch_tasks,
                    cleared (record s { dispatch_tasks = new_tasks; dispatch_capacity = new_cap }),
                    share_out s.staging thread_count,
                  )
                ]
          ] in
        if ltb s.dispatch_capacity (length s.staging)
        then grown
        else some (h, cleared s, share_out s.staging thread_count)

    -- bc_concurrency_dispatch_and_wait. `spawned` is what `ensure_workers_spawned` returns.
    pub dispatch_and_wait : ℕ → Bool → a.Heap → ℕ → Stage A → Option (a.Heap × Stage A × Round A)
    dispatch_and_wait fuel spawned h thread_count s =
        if length s.staging == 0
        then some (h, s, ran [] [])
        else if thread_count == 0 || length s.staging == 1
        then some (h, cleared s, ran s.staging [])
        else if spawned
        then distribute fuel h thread_count s
        else some (h, s, refused)
