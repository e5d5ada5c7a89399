-- ===== src/Session.antt =====
-- A client's use of one context: any calls of bc_concurrency_register_slot, bc_concurrency_submit,
-- bc_concurrency_submit_batch, bc_concurrency_dispatch_and_wait and bc_concurrency_for in a row, which
-- share the context and the heap.
pub mod Memory
pub mod Example
pub mod Soundness
pub mod Runs
pub mod Restores
pub mod Tasks
mod Tests
use bc_concurrency.Base.{
  ℕ, zero, suc, ◌+◌, ◌≡◌, ◌⊎◌, Bool, true, false, Option, none, some, List, [], ◌∷◌, ◌++◌, length,
  update, arith, if◌then◌else◌,
}
use bc_concurrency.Allocator.{Allocator}
use bc_concurrency.ParallelFor.{parallel_for}
use bc_concurrency.Context.{Context, Machine}
use bc_concurrency.Context.Slots.{SlotConfig, register_slot}
use bc_concurrency.Dispatch.{Stage, Round, dispatch_and_wait}
use bc_concurrency.Dispatch.Exact.{tasks_run}
use bc_concurrency.Dispatch.Submission.{Entry, Vector, IsVector, submit, submit_batch}

-- The staging array's memory: `push h p n` is what bc_concurrency_staging_push does to the heap and to the
-- address of the storage, where the storage at `p` holds `n` elements, and whether it succeeds.
pub record Staging (a : Allocator) : Type 0 where
  pub push : a.Heap → ℕ → ℕ → a.Heap × ℕ × Bool

-- It leaves the blocks, or puts the storage into a new block and frees the old one.
pub record IsStaging (a : Allocator) (g : Staging a) : Type 0 where
  pub push_cases :
      (h : a.Heap) (p n : ℕ)
      → (((g.push h p n).1 ≡ p) × ((q : ℕ) → a.live (g.push h p n).0 q ≡ a.live h q))
        ⊎ ((a.live h (g.push h p n).1 ≡ false)
            × ((q : ℕ)
                → a.live (g.push h p n).0 q
                  ≡ update (update (a.live h) (g.push h p n).1 true) p false q))

-- A call.
pub data Action (F X : Type 0) : Type 0 where
  register : SlotConfig → Action F X
  stage : F → X → Action F X
  stage_batch : F → (ℕ → X) → ℕ → Action F X
  dispatch : Action F X
  loop : (start end step : ℕ) → Action F X

-- `staged` is what the staging array holds, `completed` the tasks that dispatches have run so far.
pub record Session (a : Allocator) (F X : Type 0) : Type 0 where
  pub machine : Machine a
  pub context : Context
  pub staged : List (Entry F X)
  pub completed : List (Entry F X)

module _ (a : Allocator) (g : Staging a) {F X : Type 0} where
  abbrev pub pushed :
      a.Heap × ℕ × Bool → List (Entry F X) → Entry F X → (a.Heap × ℕ × List (Entry F X)) × Bool
  pushed (h, p, ok) l x = ((h, p, if ok then l ++ x ∷ [] else l), ok)

  -- The staging array of a context.
  abbrev pub staging_array : Vector (Entry F X)
  staging_array = record {
    State = a.Heap × ℕ × List (Entry F X);
    entries = λ s. s.2;
    push = λ s x. pushed (g.push s.0 s.1 (length s.2)) s.2 x;
  }

  pub staging_array-IsVector : IsVector staging_array
  staging_array-IsVector = record {
    push_true = λ s x e. ground arith;
    push_false = λ s x e. ground arith;
  }

  abbrev pub array_of : Session a F X → a.Heap × ℕ × List (Entry F X)
  array_of s = (s.machine.heap, s.context.staging, s.staged)

  abbrev pub with_array : Session a F X → a.Heap × ℕ × List (Entry F X) → Session a F X
  with_array s (h, p, l) = record s {
    machine = record s.machine { heap = h };
    context = record s.context { staging = p };
    staged = l;
  }

  abbrev pub stage_of : Session a F X → Stage (Entry F X)
  stage_of s = record {
    staging = s.staged;
    dispatch_tasks = s.context.dispatch_tasks;
    dispatch_capacity = s.context.dispatch_capacity;
  }

  abbrev pub dispatched_to :
      Session a F X
      → Option (a.Heap × Stage (Entry F X) × Round (Entry F X))
      → Option (Session a F X)
  dispatched_to s none = none
  dispatched_to s (some (h, t, r)) = some (record s {
    machine = record s.machine { heap = h };
    context = record s.context {
      dispatch_tasks = t.dispatch_tasks;
      dispatch_capacity = t.dispatch_capacity;
    };
    staged = t.staging;
    completed = s.completed ++ tasks_run r;
  })

  -- One call; `none` if it does not return with that fuel. `spawned` is what `ensure_workers_spawned`
  -- returns, in every call the same: a success after a failure is not followed (Pool.Doomed has it).
  unfoldable pub perform : Bool → ℕ → ℕ → Action F X → Session a F X → Option (Session a F X)
  perform spawned fuel size (register config) s =
      let (m, c, index) = register_slot a size config s.context s.machine in
      some (record s { machine = m; context = c })
  perform spawned fuel size (stage f x) s =
      some (with_array s (submit staging_array f x (array_of s)).0)
  perform spawned fuel size (stage_batch f xs count) s =
      some (with_array s (submit_batch staging_array f xs count (array_of s)).0)
  perform spawned fuel size dispatch s =
      dispatched_to s
        (dispatch_and_wait a fuel spawned s.machine.heap s.context.thread_count (stage_of s))
  perform spawned fuel size (loop start end step) s =
      let (h, outcome) =
        parallel_for a spawned s.machine.heap s.context.thread_count start end step in
      some (record s { machine = record s.machine { heap = h } })

  unfoldable pub perform_all :
      Bool → ℕ → ℕ → List (Action F X) → Session a F X → Option (Session a F X)
  perform_all spawned fuel size [] s = some s
  perform_all spawned fuel size (x ∷ xs) s = elim (perform spawned fuel size x s) [
    | none ↦ none
    | some s' ↦ perform_all spawned fuel size xs s'
  ]

-- The number of tasks that the calls submit.
unfoldable pub submitted : {F X : Type 0} → List (Action F X) → ℕ
submitted [] = 0
submitted (stage f x ∷ xs) = 1 + submitted xs
submitted (stage_batch f x count ∷ xs) = count + submitted xs
submitted (register config ∷ xs) = submitted xs
submitted (dispatch ∷ xs) = submitted xs
submitted (loop start end step ∷ xs) = submitted xs
