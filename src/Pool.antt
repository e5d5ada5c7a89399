-- ===== src/Pool.antt =====
-- src/context/bc_concurrency.c and src/dispatch/bc_concurrency_async.c: the main thread over all
-- workers. The main thread goes through a script of calls, one worker at a time, while the workers
-- run; every interleaving of the steps of `Worker` is a run.
pub mod Balance
pub mod Invariant
pub mod Runs
pub mod Safety
pub mod Rank
pub mod Progress
pub mod Scripts
pub mod Rounds
pub mod DispatchRun
pub mod ForRun
pub mod Sessions
pub mod Shutdown
pub mod Doomed
mod Tests
use bc_concurrency.Base.{
  ℕ, zero, suc, ◌+◌, ◌<◌, ◌≡◌, Bool, Option, none, some, List, [], ◌∷◌, ◌++◌, update, if◌then◌else◌,
}
use bc_concurrency.Worker.{
  gone, MainPc, send_lock, wait_lock, stop_lock, Link, rouse_worker, rouse_main, main_step,
  worker_step, fresh_link,
}
use bc_concurrency.Worker.Progress.{at_rest}

-- What the main thread does next: hand work to a worker, run a task itself, wait for a worker's work,
-- tell a worker to stop, or join its thread.
pub data Command (A : Type 0) : Type 0 where
  send : ℕ → List A → Command A
  own : A → Command A
  await : ℕ → Command A
  stop : ℕ → Command A
  join : ℕ → Command A

-- `calling` is the worker on which the main thread is in a call, and `main_ran` the tasks that it has
-- run itself.
pub record Pool (A : Type 0) : Type 0 where
  pub script : List (Command A)
  pub calling : Option ℕ
  pub link : ℕ → Link A
  pub main_ran : List A

module _ {A : Type 0} where
  abbrev pub call : Pool A → ℕ → MainPc A → List (Command A) → Pool A
  call s i p rest = record s {
    script = rest;
    calling = some i;
    link = update s.link i (record (s.link i) { main = p });
  }

  abbrev pub set_link : Pool A → Option ℕ → ℕ → Link A → Pool A
  set_link s c i l = record s { calling = c; link = update s.link i l }

  -- The main thread between two calls.
  pub next_command : List (Command A) → Pool A → Option (Pool A)
  next_command [] s = none
  next_command (send i w ∷ cs) s = some (call s i (send_lock w) cs)
  next_command (own t ∷ cs) s = some (record s { script = cs; main_ran = s.main_ran ++ (t ∷ []) })
  next_command (await i ∷ cs) s = some (call s i wait_lock cs)
  next_command (stop i ∷ cs) s = some (call s i stop_lock cs)
  next_command (join i ∷ cs) s = elim (s.link i).worker [
    | gone ↦ some (record s { script = cs })
    | _ ↦ none
  ]

  abbrev pub in_call : ℕ → Pool A → Option (Link A) → Option (Pool A)
  in_call i s none = none
  in_call i s (some l) = some (set_link s (if at_rest l.main then none else some i) i l)

  pub main_thread_step : Pool A → Option (Pool A)
  main_thread_step s = elim s.calling [
    | none ↦ next_command s.script s
    | some i ↦ in_call i s (main_step (s.link i).main (s.link i))
  ]

  abbrev pub linked : ℕ → Pool A → Option (Link A) → Option (Pool A)
  linked i s none = none
  linked i s (some l) = some (set_link s s.calling i l)

  pub worker_thread_step : ℕ → Pool A → Option (Pool A)
  worker_thread_step i s = linked i s (worker_step (s.link i).worker (s.link i))

  abbrev pub start_pool : List (Command A) → Pool A
  start_pool script = record {
    script = script;
    calling = none;
    link = λ _. fresh_link;
    main_ran = [];
  }

-- A step of a thread, or a wake-up that no signal made; there are `n` workers.
pub data Step {A : Type 0} (n : ℕ) (s : Pool A) : Pool A → Type 0 where
  main : {t : Pool A} → main_thread_step s ≡ some t → Step n s t
  worker : {t : Pool A} (i : ℕ) → i < n → worker_thread_step i s ≡ some t → Step n s t
  wake_main :
      (i : ℕ)
      → Step n s (set_link s s.calling i (record (s.link i) { main = rouse_main (s.link i).main }))
  wake_worker :
      (i : ℕ)
      → Step n s
          (set_link s s.calling i (record (s.link i) { worker = rouse_worker (s.link i).worker }))

pub data Reach {A : Type 0} (n : ℕ) (s : Pool A) : Pool A → Type 0 where
  here : Reach n s s
  later : {t u : Pool A} → Reach n s t → Step n t u → Reach n s u
