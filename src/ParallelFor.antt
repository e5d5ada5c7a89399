-- ===== src/ParallelFor.antt =====
-- src/dispatch/bc_concurrency_async.c: the parallel loop. A run is the list of calls of the
-- iteration function that each worker makes, in its order.
pub mod Iterations
pub mod Chunks
pub mod Equivalence
mod Tests
use bc_concurrency.Base.{
  ℕ, zero, suc, ◌+◌, ◌*◌, ◌/◌, ◌%◌, Bool, true, false, ◌||◌, Option, none, some, List, [], ◌∷◌,
  ◌++◌, leb, ltb, ◌==◌, if◌then◌else◌,
}
use bc_concurrency.Base.Words.{u64, sub64}
use bc_concurrency.Allocator.{Allocator}

-- sizeof of bc_concurrency_for_chunk_t, bc_concurrency_task_entry_t and bc_concurrency_work_t
abbrev pub chunk_bytes : ℕ
chunk_bytes = 40

abbrev pub entry_bytes : ℕ
entry_bytes = 16

abbrev pub work_bytes : ℕ
work_bytes = 16

-- `bc_concurrency_for_chunk_t`; the function and its argument are the same in every chunk.
pub record Chunk : Type 0 where
  pub start_iteration_index : ℕ
  pub iteration_count : ℕ
  pub step_size : ℕ

-- `for (size_t i = i₀; i < i₀ + n; i++) fn(start + i * step, arg);`: the indices of the calls.
pub iterate : ℕ → ℕ → ℕ → ℕ → List ℕ
iterate zero i start step = []
iterate (suc n) i start step = u64 (start + u64 (i * step)) ∷ iterate n (i + 1) start step

-- parallel_for_chunk_runner
pub chunk_runner : Chunk → List ℕ
chunk_runner c = iterate c.iteration_count 0 c.start_iteration_index c.step_size

unfoldable pub total_iterations : ℕ → ℕ → ℕ → ℕ
total_iterations start_index end_index step_size =
    u64 (1 + sub64 (sub64 end_index start_index) 1 / step_size)

-- How the iterations are shared out: `chunk_base`, `chunk_remainder`, and the count of chunk
-- `index`, where chunk 0 is the main thread's.
unfoldable pub chunk_count : ℕ → ℕ → ℕ → ℕ
chunk_count total num_chunks index =
    u64 (total / num_chunks + (if ltb index (total % num_chunks) then 1 else 0))

-- The chunks of workers `i` to `i + n - 1`, from iteration `current_offset` on.
unfoldable pub worker_chunks : ℕ → ℕ → ℕ → ℕ → ℕ → ℕ → ℕ → List Chunk
worker_chunks total num_chunks start step zero i current_offset = []
worker_chunks total num_chunks start step (suc n) i current_offset =
    let count = chunk_count total num_chunks (i + 1) in
    record {
      start_iteration_index = u64 (start + u64 (current_offset * step));
      iteration_count = count;
      step_size = step;
    }
    ∷ worker_chunks total num_chunks start step n (i + 1) (u64 (current_offset + count))

-- What a call of bc_concurrency_for does: it returns false, or it returns true after these calls.
pub data Outcome : Type 0 where
  refused : Outcome
  ran : (main : List ℕ) (workers : List Chunk) → Outcome

-- Whether the call returns true.
abbrev pub has_looped : Outcome → Bool
has_looped refused = false
has_looped (ran main workers) = true

-- The calls of the main thread, then those of each worker.
unfoldable pub run_chunks : List Chunk → List ℕ
run_chunks [] = []
run_chunks (c ∷ cs) = chunk_runner c ++ run_chunks cs

pub calls : Outcome → List ℕ
calls refused = []
calls (ran main workers) = main ++ run_chunks workers

-- `total_alloc`
abbrev pub share_bytes : ℕ → ℕ
share_bytes thread_count = u64 (
    u64 (u64 (thread_count * chunk_bytes) + u64 (thread_count * entry_bytes))
    + u64 (thread_count * work_bytes))

module _ (a : Allocator) where
  -- The part after `ensure_workers_spawned`: one allocation, the chunks, the main thread's share, and
  -- the release.
  pub share : a.Heap → ℕ → ℕ → ℕ → ℕ → a.Heap × Outcome
  share h thread_count total start step =
      let num_chunks = u64 (thread_count + 1) in
      let main_count = chunk_count total num_chunks 0 in
      let (h', block) = a.allocate h (share_bytes thread_count) in
      elim block [
        | none ↦ (h', refused)
        | some p ↦ (
          a.free h' p,
          ran (iterate main_count 0 start step)
              (worker_chunks total num_chunks start step thread_count 0 main_count),
        )
      ]

  -- bc_concurrency_for. `spawned` is what `ensure_workers_spawned` returns.
  pub parallel_for : Bool → a.Heap → ℕ → ℕ → ℕ → ℕ → a.Heap × Outcome
  parallel_for spawned h thread_count start_index end_index step_size =
      let total = total_iterations start_index end_index step_size in
      if step_size == 0
      then (h, refused)
      else if leb end_index start_index
      then (h, ran [] [])
      else if thread_count == 0 || leb total thread_count
      then (h, ran (iterate total 0 start_index step_size) [])
      else if spawned
      then share h thread_count total start_index step_size
      else (h, refused)
