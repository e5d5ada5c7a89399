-- ===== src/Worker.antt =====
-- src/context/bc_concurrency.c: one worker thread and the main thread's calls on it, one step at a
-- time: bc_concurrency_dispatch_to_worker, bc_concurrency_wait_for_worker, worker_thread_routine, and
-- the shutdown of a worker in bc_concurrency_destroy. A step is a lock, an unlock, a signal, or what
-- is done between them; `pthread_cond_wait` is a release with going to sleep, and a lock on waking up.
pub mod Invariant
pub mod Tasks
pub mod Progress
use bc_concurrency.Base.{Bool, true, false, Option, none, some, List, [], ◌∷◌, ◌++◌, if◌then◌else◌}

-- Who holds `state_mutex`.
pub data Holder : Type 0 where
  nobody main_thread worker_thread : Holder

-- Where the worker's routine stands, with the locals that are live there.
pub data WorkerPc (A : Type 0) : Type 0 where
  enter : WorkerPc A  -- before the first lock of a round
  look : WorkerPc A  -- before the test of the `while`
  asleep : WorkerPc A  -- in the wait for `ready_cond`
  roused : WorkerPc A  -- woken up, before it has the lock again
  leave : WorkerPc A  -- `should_stop` seen, before the unlock
  take_work : WorkerPc A  -- before `ready_flag = false`
  took : Option (List A) → WorkerPc A  -- before the unlock; `none` for NULL
  run : List A → WorkerPc A  -- the tasks that are left
  finish : WorkerPc A  -- before the second lock of a round
  report : WorkerPc A  -- before `done_flag = true`
  announce : WorkerPc A  -- before the signal
  release : WorkerPc A  -- before the unlock
  gone : WorkerPc A  -- the routine has returned
  crashed : WorkerPc A  -- a read through NULL

-- Where the main thread stands in its calls on this worker.
pub data MainPc (A : Type 0) : Type 0 where
  idle : MainPc A  -- in no call, and nothing handed over
  send_lock : List A → MainPc A  -- dispatch_to_worker
  send_store : List A → MainPc A
  send_signal send_unlock : MainPc A
  sent : MainPc A  -- in no call, with work handed over
  wait_lock wait_look wait_asleep wait_roused wait_unlock : MainPc A  -- wait_for_worker
  stop_lock stop_store stop_signal stop_unlock : MainPc A  -- destroy
  stopped : MainPc A

-- `bc_concurrency_worker_t` with its thread, and with the main thread's place. `ran` is not part of
-- the program: the tasks that the worker has run.
pub record Link (A : Type 0) : Type 0 where
  pub holder : Holder
  pub work : Option (List A)
  pub should_stop : Bool
  pub ready_flag : Bool
  pub done_flag : Bool
  pub worker : WorkerPc A
  pub main : MainPc A
  pub ran : List A

module _ {A : Type 0} where
  -- What a signal, or a wake-up without one, does to the one thread that may wait.
  unfoldable pub rouse_worker : WorkerPc A → WorkerPc A
  rouse_worker asleep = roused
  rouse_worker p = p

  unfoldable pub rouse_main : MainPc A → MainPc A
  rouse_main wait_asleep = wait_roused
  rouse_main p = p

  -- A lock waits while another thread, or this one, has the mutex.
  unfoldable pub lock_main : MainPc A → Link A → Option (Link A)
  lock_main p l = elim l.holder [
    | nobody ↦ some (record l { holder = main_thread; main = p })
    | _ ↦ none
  ]

  unfoldable pub lock_worker : WorkerPc A → Link A → Option (Link A)
  lock_worker p l = elim l.holder [
    | nobody ↦ some (record l { holder = worker_thread; worker = p })
    | _ ↦ none
  ]

  -- The main thread's next step on this worker; `none` where it is in no call or cannot move.
  unfoldable pub main_step : MainPc A → Link A → Option (Link A)
  unfolding rouse_worker lock_main
  main_step idle l = none
  main_step (send_lock w) l = lock_main (send_store w) l
  main_step (send_store w) l =
      some (record l { work = some w; done_flag = false; ready_flag = true; main = send_signal })
  main_step send_signal l = some (record l { worker = rouse_worker l.worker; main = send_unlock })
  main_step send_unlock l = some (record l { holder = nobody; main = sent })
  main_step sent l = none
  main_step wait_lock l = lock_main wait_look l
  main_step wait_look l = some (
      if l.done_flag
      then record l { main = wait_unlock }
      else record l { holder = nobody; main = wait_asleep })
  main_step wait_asleep l = none
  main_step wait_roused l = lock_main wait_look l
  main_step wait_unlock l = some (record l { holder = nobody; main = idle })
  main_step stop_lock l = lock_main stop_store l
  main_step stop_store l = some (record l { should_stop = true; main = stop_signal })
  main_step stop_signal l = some (record l { worker = rouse_worker l.worker; main = stop_unlock })
  main_step stop_unlock l = some (record l { holder = nobody; main = stopped })
  main_step stopped l = none

  abbrev start_work : Option (List A) → WorkerPc A
  start_work none = crashed
  start_work (some w) = run w

  -- The worker's next step.
  unfoldable pub worker_step : WorkerPc A → Link A → Option (Link A)
  unfolding rouse_main lock_worker
  worker_step enter l = lock_worker look l
  worker_step look l = some (
      if l.should_stop
      then record l { worker = leave }
      else if l.ready_flag
      then record l { worker = take_work }
      else record l { holder = nobody; worker = asleep })
  worker_step asleep l = none
  worker_step roused l = lock_worker look l
  worker_step leave l = some (record l { holder = nobody; worker = gone })
  worker_step take_work l =
      some (record l { ready_flag = false; work = none; worker = took l.work })
  worker_step (took w) l = some (record l { holder = nobody; worker = start_work w })
  worker_step (run []) l = some (record l { worker = finish })
  worker_step (run (t ∷ ts)) l = some (record l { ran = l.ran ++ (t ∷ []); worker = run ts })
  worker_step finish l = lock_worker report l
  worker_step report l = some (record l { done_flag = true; worker = announce })
  worker_step announce l = some (record l { main = rouse_main l.main; worker = release })
  worker_step release l = some (record l { holder = nobody; worker = enter })
  worker_step gone l = none
  worker_step crashed l = none

  -- A worker as `bc_concurrency_create` sets it up, with its thread started.
  abbrev pub fresh_link : Link A
  fresh_link = record {
    holder = nobody;
    work = none;
    should_stop = false;
    ready_flag = false;
    done_flag = false;
    worker = enter;
    main = idle;
    ran = [];
  }
