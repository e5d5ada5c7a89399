-- ===== src/Spawning.antt =====
-- src/context/bc_concurrency.c: spawn_workers and bc_concurrency_ensure_workers_spawned. What the
-- pthread calls answer is a parameter.
pub mod Retry
mod Tests
use bc_concurrency.Base.{
  ℕ, zero, suc, ◌+◌, Bool, true, false, Option, none, some, update, if◌then◌else◌,
}

-- The answers of one attempt: pthread_attr_init, pthread_attr_setstacksize, and pthread_create for
-- each worker.
pub record Answers : Type 0 where
  pub attr_init : Bool
  pub attr_setstacksize : Bool
  pub create : ℕ → Bool

-- What spawning changes: `workers_spawned`, each worker's `should_stop`, and the threads that have
-- been created and not joined.
pub record Crew : Type 0 where
  pub workers_spawned : Bool
  pub should_stop : ℕ → Bool
  pub running : ℕ → Bool

-- The loop of pthread_create for the `n` workers from `i` on: `some threads_started` where one fails.
unfoldable pub create_threads : (ℕ → Bool) → ℕ → ℕ → Crew → Crew × Option ℕ
create_threads create zero i c = (c, none)
create_threads create (suc n) i c =
    let rest = create_threads create n (i + 1) (record c { running = update c.running i true }) in
    if create i then rest else (c, some i)

-- Every started worker is told to stop, then joined.
unfoldable pub stop_started : ℕ → ℕ → Crew → Crew
stop_started zero j c = c
stop_started (suc n) j c =
    stop_started n (j + 1) (record c { should_stop = update c.should_stop j true })

unfoldable pub join_started : ℕ → ℕ → Crew → Crew
join_started zero j c = c
join_started (suc n) j c = join_started n (j + 1) (record c { running = update c.running j false })

abbrev pub after_create : Crew × Option ℕ → Crew × Bool
after_create (c, none) = (record c { workers_spawned = true }, true)
after_create (c, some started) = (join_started started 0 (stop_started started 0 c), false)

unfoldable pub spawn_workers : Answers → ℕ → Crew → Crew × Bool
spawn_workers a thread_count c =
    if a.attr_init
    then if a.attr_setstacksize
      then after_create (create_threads a.create thread_count 0 c)
      else (c, false)
    else (c, false)

unfoldable pub ensure_workers_spawned : Answers → ℕ → Crew → Crew × Bool
unfolding spawn_workers
ensure_workers_spawned a thread_count c =
    if c.workers_spawned then (c, true) else spawn_workers a thread_count c

-- A context that bc_concurrency_create has returned.
abbrev pub new_crew : Crew
new_crew = record { workers_spawned = false; should_stop = λ _. false; running = λ _. false }
