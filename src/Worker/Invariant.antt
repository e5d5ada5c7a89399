-- ===== src/Worker/Invariant.antt =====
-- What holds of a worker and the main thread's calls on it between two steps.
use bc_concurrency.Base.{
  ◌≡◌, ◌≢◌, ◌⊎◌, Bool, true, false, Option, none, some, List, [], ◌∷◌, ◌++◌, arith,
}
use bc_concurrency.Worker.{
  main_thread, worker_thread, WorkerPc, enter, look, asleep, leave, take_work, took, run, finish,
  report, announce, release, gone, crashed, MainPc, idle, send_lock, send_store, send_signal,
  send_unlock, sent, wait_lock, wait_look, wait_asleep, wait_roused, wait_unlock, stop_store,
  stop_signal, stop_unlock, stopped, Link, rouse_worker, rouse_main, main_step, worker_step,
  fresh_link,
}

module _ {A : Type 0} where
  -- Between a lock and its unlock.
  abbrev pub main_holds : MainPc A → Bool
  main_holds (send_store w) = true
  main_holds send_signal = true
  main_holds send_unlock = true
  main_holds wait_look = true
  main_holds wait_unlock = true
  main_holds stop_store = true
  main_holds stop_signal = true
  main_holds stop_unlock = true
  main_holds _ = false

  abbrev pub worker_holds : WorkerPc A → Bool
  worker_holds look = true
  worker_holds leave = true
  worker_holds take_work = true
  worker_holds (took w) = true
  worker_holds report = true
  worker_holds announce = true
  worker_holds release = true
  worker_holds _ = false

  -- Between taking the work and setting `done_flag`.
  abbrev pub serving : WorkerPc A → Bool
  serving (took w) = true
  serving (run w) = true
  serving finish = true
  serving report = true
  serving _ = false

  -- Between the store of the work and the sight of `done_flag`.
  abbrev pub engaged : MainPc A → Bool
  engaged send_signal = true
  engaged send_unlock = true
  engaged sent = true
  engaged wait_lock = true
  engaged wait_look = true
  engaged wait_asleep = true
  engaged wait_roused = true
  engaged _ = false

  -- After the store of `should_stop`.
  abbrev pub stopping : MainPc A → Bool
  stopping stop_signal = true
  stopping stop_unlock = true
  stopping stopped = true
  stopping _ = false

  abbrev pub handed : Option (List A) → List A
  handed none = []
  handed (some w) = w

  -- The tasks that have been handed over and not been run.
  abbrev pub with_worker : WorkerPc A → List A
  with_worker (took w) = handed w
  with_worker (run w) = w
  with_worker _ = []

  abbrev pub with_main : MainPc A → List A
  with_main (send_lock w) = w
  with_main (send_store w) = w
  with_main _ = []

  abbrev pub waiting : Bool → Option (List A) → List A
  waiting true w = handed w
  waiting false w = []

  abbrev pub in_flight : Link A → List A
  in_flight l = with_worker l.worker ++ (waiting l.ready_flag l.work ++ with_main l.main)

pub record LinkInv {A : Type 0} (l : Link A) : Type 0 where
  pub main_has : main_holds l.main ≡ true → l.holder ≡ main_thread
  pub has_main : l.holder ≡ main_thread → main_holds l.main ≡ true
  pub worker_has : worker_holds l.worker ≡ true → l.holder ≡ worker_thread
  pub has_worker : l.holder ≡ worker_thread → worker_holds l.worker ≡ true
  pub taking : l.worker ≡ take_work → l.ready_flag ≡ true
  pub stored : l.ready_flag ≡ true → l.work ≢ none
  pub one_work : l.ready_flag ≡ true → serving l.worker ≡ false
  pub took_work : l.worker ≢ took none
  pub whole : l.worker ≢ crashed
  pub ready_engaged : l.ready_flag ≡ true → engaged l.main ≡ true
  pub serving_engaged : serving l.worker ≡ true → engaged l.main ≡ true
  pub undone : (l.ready_flag ≡ true) ⊎ (serving l.worker ≡ true) → l.done_flag ≡ false
  pub done :
      engaged l.main ≡ true → l.ready_flag ≡ false → serving l.worker ≡ false → l.done_flag ≡ true
  pub unlocking : l.main ≡ wait_unlock → (l.ready_flag ≡ false) × (serving l.worker ≡ false)
  pub sleep_ready : l.worker ≡ asleep → l.ready_flag ≡ true → l.main ≡ send_signal
  pub sleep_stop : l.worker ≡ asleep → l.should_stop ≡ true → l.main ≡ stop_signal
  pub sleep_done : l.main ≡ wait_asleep → l.done_flag ≡ true → l.worker ≡ announce
  pub stop_stopping : l.should_stop ≡ true → stopping l.main ≡ true
  pub stopping_stop : stopping l.main ≡ true → l.should_stop ≡ true
  pub leaving : (l.worker ≡ leave) ⊎ (l.worker ≡ gone) → l.should_stop ≡ true

module _ {A : Type 0} where
  pub fresh_link-LinkInv : LinkInv {A = A} fresh_link
  fresh_link-LinkInv = ground arith

  pub main_step-LinkInv :
      (p : MainPc A) (l : Link A) {l' : Link A}
      → l.main ≡ p
      → main_step p l ≡ some l'
      → LinkInv l
      → LinkInv l'
  unfolding main_step
  main_step-LinkInv idle l m e v = cc
  main_step-LinkInv p l m e v = ground arith

  pub worker_step-LinkInv :
      (p : WorkerPc A) (l : Link A) {l' : Link A}
      → l.worker ≡ p
      → worker_step p l ≡ some l'
      → LinkInv l
      → LinkInv l'
  unfolding worker_step
  worker_step-LinkInv enter l m e v = ground arith
  worker_step-LinkInv (run []) l m e v = ground arith
  worker_step-LinkInv (run (t ∷ ts)) l m e v = ground arith
  worker_step-LinkInv p l m e v = ground arith

  -- A wake-up that no signal made.
  pub rouse_main-LinkInv :
      (l : Link A) → LinkInv l → LinkInv (record l { main = rouse_main l.main })
  unfolding rouse_main
  rouse_main-LinkInv l v = ground arith

  pub rouse_worker-LinkInv :
      (l : Link A) → LinkInv l → LinkInv (record l { worker = rouse_worker l.worker })
  unfolding rouse_worker
  rouse_worker-LinkInv l v = ground arith
