-- ===== src/Pool/Scripts.antt =====
-- The calls on the workers that bc_concurrency_dispatch_and_wait, bc_concurrency_for and
-- bc_concurrency_destroy make, in their order.
use bc_concurrency.Base.{
  ℕ, zero, suc, ◌+◌, ◌||◌, List, [], ◌∷◌, ◌++◌, length, take, get_elem?, ◌==◌, if◌then◌else◌, map,
}
use bc_concurrency.Base.Words.{u64}
use bc_concurrency.ParallelFor.{Chunk, chunk_count, chunk_runner, iterate, worker_chunks}
use bc_concurrency.Dispatch.{assignments, assigned}
use bc_concurrency.Pool.{Command, send, own, await, stop, join}

module _ {A : Type 0} where
  -- Workers `i`, `i + 1`, … are handed their assignments; an empty one is passed over.
  unfoldable pub sends : ℕ → List (List A) → List (Command A)
  sends i [] = []
  sends i ([] ∷ ws) = sends (i + 1) ws
  sends i ((t ∷ ts) ∷ ws) = send i (t ∷ ts) ∷ sends (i + 1) ws

  unfoldable pub awaits : ℕ → List (List A) → List (Command A)
  awaits i [] = []
  awaits i ([] ∷ ws) = awaits (i + 1) ws
  awaits i ((t ∷ ts) ∷ ws) = await i ∷ awaits (i + 1) ws

  unfoldable pub owns : List A → List (Command A)
  owns [] = []
  owns (t ∷ ts) = own t ∷ owns ts

  -- The assignments to the workers, and what the main thread runs in between.
  unfoldable pub round : List (List A) → List A → List (Command A)
  round ws mine = sends 0 ws ++ (owns mine ++ awaits 0 ws)

  abbrev pub all_assignments : ℕ → List A → List (List A)
  all_assignments thread_count tasks =
      assignments tasks (u64 (thread_count + 1)) (u64 (thread_count + 1)) 0 0

  -- bc_concurrency_dispatch_and_wait, where the workers are there and the dispatch array has room.
  unfoldable pub dispatch_script : ℕ → List A → List (Command A)
  dispatch_script thread_count tasks =
      if length tasks == 0
      then []
      else if thread_count == 0 || length tasks == 1
      then owns tasks
      else round (take thread_count (all_assignments thread_count tasks))
          (assigned (get_elem? (all_assignments thread_count tasks) thread_count))

  -- bc_concurrency_destroy: every worker is told to stop, then every thread is joined.
  unfoldable pub stops : ℕ → ℕ → List (Command A)
  stops zero i = []
  stops (suc n) i = stop i ∷ stops n (i + 1)

  unfoldable pub joins : ℕ → ℕ → List (Command A)
  joins zero i = []
  joins (suc n) i = join i ∷ joins n (i + 1)

  unfoldable pub shutdown : ℕ → List (Command A)
  shutdown thread_count = stops thread_count 0 ++ joins thread_count 0

  -- A client that dispatches these batches of tasks and then destroys the context.
  unfoldable pub session : ℕ → List (List A) → List (Command A)
  session thread_count [] = shutdown thread_count
  session thread_count (tasks ∷ batches) =
      dispatch_script thread_count tasks ++ session thread_count batches

-- The part of bc_concurrency_for after its allocation: a task is the indices that it calls the
-- iteration function with, a worker's the calls of its chunk and the main thread's one call each.
unfoldable pub chunk_works : List Chunk → List (List (List ℕ))
chunk_works [] = []
chunk_works (c ∷ cs) = (chunk_runner c ∷ []) ∷ chunk_works cs

abbrev pub one_call : ℕ → List ℕ
one_call i = i ∷ []

unfoldable pub for_script : ℕ → ℕ → ℕ → ℕ → List (Command (List ℕ))
for_script thread_count total start step =
    let num_chunks = u64 (thread_count + 1) in
    let main_count = chunk_count total num_chunks 0 in
    round (chunk_works (worker_chunks total num_chunks start step thread_count 0 main_count))
      (map one_call (iterate main_count 0 start step))
