-- ===== src/Context.antt =====
-- src/context/bc_concurrency.c: bc_concurrency_create and bc_concurrency_destroy. The pool allocator,
-- the staging vector of bc-containers and the memory contexts of bc-allocators are parameters.
pub mod Placement
pub mod Owned
pub mod Creation
pub mod Lifetime
pub mod Slots
pub mod Destruction
pub mod Callbacks
pub mod Queries
pub mod Client
pub mod Ownership
pub mod Capacity
pub mod Example
pub mod Pointers
mod Tests
use bc_concurrency.Base.{
  ℕ, zero, suc, ◌+◌, ◌*◌, ◌≡◌, Bool, true, false, Option, none, some, List, [], ◌∷◌, ◌++◌, update,
  ltb, if◌then◌else◌,
}
use bc_concurrency.Base.Words.{u64}
use bc_concurrency.Allocator.{Allocator}
use bc_concurrency.ParallelFor.{entry_bytes}
use bc_concurrency.Context.Placement.{Plan}

-- The sizes of the structs that the context allocates.
pub record Sizes : Type 0 where
  pub context_size : ℕ
  pub work_size : ℕ
  pub thread_size : ℕ
  pub worker_size : ℕ

-- BC_CONCURRENCY_STAGING_INITIAL_CAPACITY
abbrev pub staging_initial_capacity : ℕ
staging_initial_capacity = 1024

-- `struct bc_concurrency_context`: its own address, its fields, and the slots of its workers
-- (`slots i` is `workers[i].slots`, `slot i s` is `workers[i].slots[s]`, and `has_destroy s` says that
-- `slot_configs[s].destroy` is not NULL).
pub record Context : Type 0 where
  pub context : ℕ
  pub thread_count : ℕ
  pub core_offset : ℕ
  pub worker_stack_size : ℕ
  pub staging : ℕ
  pub dispatch_tasks : ℕ
  pub dispatch_capacity : ℕ
  pub dispatch_work : ℕ
  pub threads : Option ℕ
  pub workers : ℕ
  pub slot_count : ℕ
  pub slot_capacity : ℕ
  pub slot_configs : Option ℕ
  pub slots : ℕ → Option ℕ
  pub slot : ℕ → ℕ → Option ℕ
  pub has_destroy : ℕ → Bool

-- The context after bc_core_zero and the assignments that follow.
abbrev pub blank_context : Plan → ℕ → Context
blank_context plan p = record {
  context = p;
  thread_count = plan.thread_count;
  core_offset = plan.core_offset;
  worker_stack_size = plan.worker_stack_size;
  staging = 0;
  dispatch_tasks = 0;
  dispatch_capacity = 0;
  dispatch_work = 0;
  threads = none;
  workers = 0;
  slot_count = 0;
  slot_capacity = 0;
  slot_configs = none;
  slots = λ _. none;
  slot = λ _ _. none;
  has_destroy = λ _. false;
}

-- bc_concurrency_staging_reserve on an empty vector (`some` is the address of its storage) and
-- bc_concurrency_staging_destroy; whether bc_allocators_context_create succeeds for a worker.
pub record Services (a : Allocator) : Type 0 where
  pub reserve : a.Heap → ℕ → a.Heap × Option ℕ
  pub release : a.Heap → ℕ → a.Heap
  pub memory_create : ℕ → Bool

-- What the two functions change: the heap, which workers have a memory context, which have their
-- mutex and conditions initialised, and the calls of a slot's `init` and `destroy`, as slot and worker.
pub record Machine (a : Allocator) : Type 0 where
  pub heap : a.Heap
  pub memories : ℕ → Bool
  pub locks : ℕ → Bool
  pub initialised : List (ℕ × ℕ)
  pub destroyed : List (ℕ × ℕ)

module _ (a : Allocator) (e : Services a) (z : Sizes) where
  abbrev pub free : ℕ → Machine a → Machine a
  free p m = record m { heap = a.free m.heap p }

  -- `if (p != NULL)` before a free.
  unfoldable pub free_some : Option ℕ → Machine a → Machine a
  free_some none m = m
  free_some (some p) m = free p m

  -- The labels of bc_concurrency_create, each going on with the next.
  unfoldable pub fail_context : Context → Machine a → Machine a
  fail_context c m = free c.context m

  unfoldable pub fail_staging : Context → Machine a → Machine a
  fail_staging c m = fail_context c (record m { heap = e.release m.heap c.staging })

  unfoldable pub fail_dispatch_tasks : Context → Machine a → Machine a
  fail_dispatch_tasks c m = fail_staging c (free c.dispatch_tasks m)

  unfoldable pub fail_threads : Context → Machine a → Machine a
  fail_threads c m = fail_dispatch_tasks c (free c.dispatch_work (free_some c.threads m))

  -- The first `n` workers, from `j` on, lose their memory context, conditions and mutex.
  unfoldable pub drop_workers : ℕ → ℕ → Machine a → Machine a
  drop_workers zero j m = m
  drop_workers (suc n) j m =
      drop_workers n (j + 1)
        (record m { memories = update m.memories j false; locks = update m.locks j false })

  unfoldable pub fail_workers : ℕ → Context → Machine a → Machine a
  fail_workers created c m = fail_threads c (free c.workers (drop_workers created 0 m))

  -- The workers from `i` on, the main thread's last: mutex, conditions and memory context.
  -- `some worker_memory_contexts_created` where a memory context cannot be created.
  unfoldable pub init_workers : ℕ → ℕ → Machine a → Machine a × Option ℕ
  init_workers zero i m = (m, none)
  init_workers (suc n) i m =
      let locked = record m { locks = update m.locks i true } in
      let rest = init_workers n (i + 1) (record locked { memories = update m.memories i true }) in
      if e.memory_create i then rest else (locked, some i)

  unfoldable pub after_init : Context → Machine a × Option ℕ → Machine a × Option Context
  after_init c (m, none) = (m, some c)
  after_init c (m, some created) = (fail_workers created c m, none)

  -- The rest of the function after each allocation, whose result is the last argument.
  unfoldable pub got_workers : Context → Machine a → Option ℕ → Machine a × Option Context
  got_workers c m none = (fail_threads c m, none)
  got_workers c m (some p) =
      after_init (record c { workers = p }) (init_workers (suc c.thread_count) 0 m)

  abbrev pub allocate_workers : Context → Machine a → Machine a × Option Context
  allocate_workers c m =
      let (h, block) = a.allocate m.heap (u64 (u64 (c.thread_count + 1) * z.worker_size)) in
      got_workers c (record m { heap = h }) block

  unfoldable pub got_threads : Context → Machine a → Option ℕ → Machine a × Option Context
  got_threads c m none = (fail_threads c m, none)
  got_threads c m (some p) = allocate_workers (record c { threads = some p }) m

  unfoldable pub got_dispatch_work : Context → Machine a → Option ℕ → Machine a × Option Context
  got_dispatch_work c m none = (fail_dispatch_tasks c m, none)
  got_dispatch_work c m (some p) =
      let c' = record c { dispatch_work = p } in
      let (h, block) = a.allocate m.heap (u64 (c.thread_count * z.thread_size)) in
      if ltb 0 c.thread_count
      then got_threads c' (record m { heap = h }) block
      else allocate_workers (record c' { threads = none }) m

  unfoldable pub got_dispatch_tasks : Context → Machine a → Option ℕ → Machine a × Option Context
  got_dispatch_tasks c m none = (fail_staging c m, none)
  got_dispatch_tasks c m (some p) =
      let (h, block) = a.allocate m.heap (u64 (u64 (c.thread_count + 1) * z.work_size)) in
      got_dispatch_work
        (record c { dispatch_tasks = p; dispatch_capacity = staging_initial_capacity })
        (record m { heap = h }) block

  unfoldable pub got_staging : Context → Machine a → Option ℕ → Machine a × Option Context
  got_staging c m none = (fail_context c m, none)
  got_staging c m (some p) =
      let (h, block) = a.allocate m.heap (staging_initial_capacity * entry_bytes) in
      got_dispatch_tasks (record c { staging = p }) (record m { heap = h }) block

  unfoldable pub got_context : Plan → Machine a → Option ℕ → Machine a × Option Context
  got_context plan m none = (m, none)
  got_context plan m (some p) =
      let (h, block) = e.reserve m.heap staging_initial_capacity in
      got_staging (blank_context plan p) (record m { heap = h }) block

  -- bc_concurrency_create from its first allocation on.
  unfoldable pub create : Plan → Machine a → Machine a × Option Context
  create plan m =
      let (h, block) = a.allocate m.heap z.context_size in
      got_context plan (record m { heap = h }) block

  -- bc_concurrency_destroy, the part after the worker threads have been joined.
  unfoldable pub destroy_slot : Context → ℕ → ℕ → Option ℕ → Machine a → Machine a
  destroy_slot c i s none m = m
  destroy_slot c i s (some p) m = free p (record m {
    destroyed = if c.has_destroy s then m.destroyed ++ ((s, i) ∷ []) else m.destroyed;
  })

  unfoldable pub destroy_slots : ℕ → Context → ℕ → Machine a → Machine a
  destroy_slots zero c i m = m
  destroy_slots (suc s) c i m = destroy_slots s c i (destroy_slot c i s (c.slot i s) m)

  unfoldable pub destroy_workers : ℕ → ℕ → Context → Machine a → Machine a
  destroy_workers zero i c m = m
  destroy_workers (suc n) i c m =
      let freed = free_some (c.slots i) (destroy_slots c.slot_count c i m) in
      destroy_workers n (i + 1) c (record freed {
        locks = update freed.locks i false;
        memories = update freed.memories i false;
      })

  unfoldable pub destroy : Context → Machine a → Machine a
  destroy c m =
      let cleared = free_some c.slot_configs (destroy_workers (u64 (c.thread_count + 1)) 0 c m) in
      let released = record cleared { heap = e.release cleared.heap c.staging } in
      free c.context (
        free c.workers
          (free_some c.threads (free c.dispatch_work (free c.dispatch_tasks released))))
