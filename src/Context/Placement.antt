-- ===== src/Context/Placement.antt =====
-- The first part of bc_concurrency_create: the number of workers and the cores of their threads.
use bc_concurrency.Base.{
  ℕ, ◌+◌, ◌-◌, ◌*◌, ◌^◌, ◌≤◌, ◌<◌, ◌≡◌, ◌≢◌, ◌⊎◌, Bool, false, ◌&&◌, Option, none, some, arith, ltb,
  leb, ◌==◌, if◌then◌else◌,
}
use bc_concurrency.Base.Words.{u64}

-- bc_concurrency_config_t
pub record Config : Type 0 where
  pub core_offset : ℕ
  pub worker_count_explicit : Bool
  pub worker_count : ℕ
  pub worker_stack_size : ℕ

-- What the function goes on with where it accepts the configuration.
pub record Plan : Type 0 where
  pub thread_count : ℕ
  pub core_offset : ℕ
  pub worker_stack_size : ℕ

-- No configuration is one of zeros.
unfoldable pub config_of : Option Config → Config
config_of none = record {
  core_offset = 0;
  worker_count_explicit = false;
  worker_count = 0;
  worker_stack_size = 0;
}
config_of (some c) = c

unfoldable pub stack_size : ℕ → ℕ → ℕ
stack_size stack_min asked =
    let size = if asked == 0 then 1024 * 1024 else asked in
    if ltb size stack_min then stack_min else size

unfoldable pub thread_count_of : Config → ℕ → ℕ
thread_count_of c physical_core_count =
    if c.worker_count_explicit
    then c.worker_count
    else if ltb 1 physical_core_count
    then physical_core_count - 1
    else 0

-- `stack_min` is PTHREAD_STACK_MIN.
unfoldable pub plan_of : ℕ → ℕ → Option Config → Option Plan
plan_of stack_min physical_core_count config =
    let c = config_of config in
    let thread_count = thread_count_of c physical_core_count in
    if leb physical_core_count c.core_offset
    then none
    else if ltb 0 thread_count && leb physical_core_count (u64 (c.core_offset + thread_count))
    then none
    else some (record {
      thread_count = thread_count;
      core_offset = c.core_offset;
      worker_stack_size = stack_size stack_min c.worker_stack_size;
    })

-- The core that worker_thread_routine pins its thread to.
abbrev pub worker_core : Plan → ℕ → ℕ
worker_core p index = u64 (p.core_offset + 1 + index)

-- Where a configuration is accepted, there are fewer than 2 ^ 64 cores, and the core offset and the
-- number of workers do not add up to 2 ^ 64: the core of every worker exists and is not the main
-- thread's, two different workers' are different, and the stack is not below the least size.
pub plan_cores :
    (stack_min cores : ℕ) (config : Option Config) (p : Plan) (i j : ℕ)
    → plan_of stack_min cores config ≡ some p
    → cores < 2 ^ 64
    → p.core_offset + p.thread_count < 2 ^ 64
    → i < p.thread_count
    → j < p.thread_count
    → (worker_core p i < cores)
      × (worker_core p i ≢ p.core_offset)
      × ((i ≡ j) ⊎ (worker_core p i ≢ worker_core p j))
      × (stack_min ≤ p.worker_stack_size)
      × (p.core_offset < cores)
unfolding plan_of stack_size thread_count_of config_of
plan_cores stack_min cores config p i j e small sum li lj = ground arith
