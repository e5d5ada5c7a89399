-- ===== src/Worker/Progress.antt =====
-- How far a worker and the calls on it are from their rest, and who can move.
use bc_concurrency.Base.{
  ℕ, ◌+◌, ◌<◌, ◌≡◌, ◌≢◌, ◌⊎◌, Bool, true, false, refl, inl, inr, Option-cases, Option, none, some,
  List, [], ◌∷◌, length, arith,
}
use bc_concurrency.Worker.{
  WorkerPc, enter, look, asleep, roused, leave, take_work, took, run, finish, report, announce,
  release, gone, crashed, MainPc, idle, send_lock, send_store, send_signal, send_unlock, sent,
  wait_lock, wait_look, wait_asleep, wait_roused, wait_unlock, stop_lock, stop_store, stop_signal,
  stop_unlock, stopped, Link, main_step, worker_step,
}
use bc_concurrency.Worker.Invariant.{LinkInv, handed}

module _ {A : Type 0} where
  abbrev pub worker_rank : WorkerPc A → ℕ
  worker_rank enter = 3
  worker_rank look = 2
  worker_rank asleep = 1
  worker_rank roused = 3
  worker_rank leave = 1
  worker_rank take_work = 1
  worker_rank (took w) = 12 + length (handed w)
  worker_rank (run w) = 11 + length w
  worker_rank finish = 10
  worker_rank report = 9
  worker_rank announce = 8
  worker_rank release = 4
  worker_rank gone = 0
  worker_rank crashed = 0

  abbrev pub main_rank : MainPc A → ℕ
  main_rank idle = 0
  main_rank (send_lock w) = 18 + length w
  main_rank (send_store w) = 17 + length w
  main_rank send_signal = 4
  main_rank send_unlock = 1
  main_rank sent = 0
  main_rank wait_lock = 3
  main_rank wait_look = 2
  main_rank wait_asleep = 1
  main_rank wait_roused = 3
  main_rank wait_unlock = 1
  main_rank stop_lock = 6
  main_rank stop_store = 5
  main_rank stop_signal = 4
  main_rank stop_unlock = 1
  main_rank stopped = 0

  abbrev pub ready_rank : Bool → Option (List A) → ℕ
  ready_rank true w = 12 + length (handed w)
  ready_rank false w = 0

  abbrev pub rank : Link A → ℕ
  rank l = worker_rank l.worker + main_rank l.main + ready_rank l.ready_flag l.work

  pub main_step-rank :
      (p : MainPc A) (l : Link A) {l' : Link A}
      → l.main ≡ p
      → main_step p l ≡ some l'
      → rank l' < rank l
  unfolding main_step
  main_step-rank idle l m e = cc
  main_step-rank p l m e = ground arith

  pub worker_step-rank :
      (p : WorkerPc A) (l : Link A) {l' : Link A}
      → l.worker ≡ p
      → worker_step p l ≡ some l'
      → LinkInv l
      → rank l' < rank l
  unfolding worker_step
  worker_step-rank enter l m e v = ground arith
  worker_step-rank (run []) l m e v = ground arith
  worker_step-rank (run (t ∷ ts)) l m e v = ground arith
  worker_step-rank p l m e v = ground arith

  -- In no call on this worker.
  abbrev pub at_rest : MainPc A → Bool
  at_rest idle = true
  at_rest sent = true
  at_rest stopped = true
  at_rest _ = false

  -- Where neither can move, the main thread is in no call on this worker.
  stuck :
      (p : MainPc A) (q : WorkerPc A) (l : Link A)
      → l.main ≡ p
      → l.worker ≡ q
      → LinkInv l
      → main_step p l ≡ none
      → worker_step q l ≡ none
      → at_rest p ≡ true
  unfolding main_step worker_step
  stuck idle q l m w v e f = refl
  stuck p enter l m w v e f = ground arith
  stuck p (run []) l m w v e f = cc
  stuck p (run (t ∷ ts)) l m w v e f = cc
  stuck p q l m w v e f = ground arith

  -- A call on a worker never stands still: the main thread or the worker can move.
  pub call_moves :
      (l : Link A)
      → LinkInv l
      → at_rest l.main ≡ false
      → (main_step l.main l ≢ none) ⊎ (worker_step l.worker l ≢ none)
  call_moves l v c = elim (Option-cases (main_step l.main l)) [
    | inr (l', e) ↦ inl (cc)
    | inl e ↦ inr (λ f. ground (arith, stuck l.main l.worker l refl refl v e f))
  ]

  -- A worker that has been stopped and has not left can move.
  pub stopped_moves :
      (q : WorkerPc A) (l : Link A)
      → l.worker ≡ q
      → LinkInv l
      → l.main ≡ stopped
      → q ≢ gone
      → worker_step q l ≢ none
  unfolding worker_step
  stopped_moves enter l w v c g e = ground arith
  stopped_moves (run []) l w v c g e = cc
  stopped_moves (run (t ∷ ts)) l w v c g e = cc
  stopped_moves q l w v c g e = ground arith
