-- ===== src/Worker/Tasks.antt =====
-- The tasks of a worker: run, or handed over and still to be run.
use mathlib.Core.List.{append-nil, append_assoc}
use bc_concurrency.Base.{◌≡◌, ◌∙◌, ap, sym, false, some, List, [], ◌∷◌, ◌++◌, arith}
use bc_concurrency.Worker.{
  WorkerPc, enter, run, MainPc, idle, send_lock, send_store, Link, main_step, worker_step,
}
use bc_concurrency.Worker.Invariant.{LinkInv, engaged, with_main, with_worker, waiting, in_flight}

module _ {A : Type 0} where
  abbrev pub tasks : Link A → List A
  tasks l = l.ran ++ in_flight l

  pub main_step-tasks :
      (p : MainPc A) (l : Link A) {l' : Link A}
      → l.main ≡ p
      → main_step p l ≡ some l'
      → LinkInv l
      → tasks l' ≡ tasks l
  unfolding main_step
  main_step-tasks idle l m e v = cc
  main_step-tasks (send_store w) l m e v = ground (arith, append-nil w)
  main_step-tasks p l m e v = ground arith

  pub worker_step-tasks :
      (p : WorkerPc A) (l : Link A) {l' : Link A}
      → l.worker ≡ p
      → worker_step p l ≡ some l'
      → LinkInv l
      → tasks l' ≡ tasks l
  unfolding worker_step
  worker_step-tasks enter l m e v = ground arith
  worker_step-tasks (run []) l m e v = ground arith
  worker_step-tasks (run (t ∷ ts)) l m e v =
      ground (arith, append_assoc l.ran (t ∷ []) (in_flight (record l { worker = run ts })))
  worker_step-tasks p l m e v = ground arith

  -- Nothing is in flight while no work is handed over.
  pub quiet_tasks :
      (l : Link A) → LinkInv l → engaged l.main ≡ false → with_main l.main ≡ [] → tasks l ≡ l.ran
  quiet_tasks l v q m = ground (arith, append-nil l.ran)

  regroup :
      (a b c w ys : List A) → (a ++ (b ++ (c ++ w))) ++ ys ≡ (a ++ (b ++ (c ++ []))) ++ (w ++ ys)
  regroup a b c w ys = simp (append_assoc, append-nil)

  -- The start of a call that hands over `w`.
  pub send_tasks :
      (l : Link A) (w ys : List A)
      → l.main ≡ idle
      → tasks (record l { main = send_lock w }) ++ ys ≡ tasks l ++ (w ++ ys)
  send_tasks l w ys e =
      regroup l.ran (with_worker l.worker) (waiting l.ready_flag l.work) w ys
      ∙ ap
          (λ m.
            (l.ran ++ (with_worker l.worker ++ (waiting l.ready_flag l.work ++ with_main m)))
            ++ (w ++ ys))
          (sym e)
