-- ===== src/Pool/Progress.antt =====
-- Runs without wake-ups that no signal made: how long they are, and where they end.
use bc_concurrency.Base.{
  ℕ, zero, suc, ◌+◌, ◌<◌, ◌≤◌, ◌≡◌, ◌≢◌, ◌⊎◌, inl, inr, refl, sym, ap, ◌∙◌, none, some,
  Option-cases, List, [], ◌∷◌, arith,
}
use bc_concurrency.Worker.{WorkerPc, gone, stopped, main_step, worker_step}
use bc_concurrency.Worker.Progress.{call_moves, stopped_moves}
use bc_concurrency.Pool.{
  Command, send, own, await, stop, join, Pool, next_command, main_thread_step, worker_thread_step,
  start_pool, main, worker, Reach, here, later,
}
use bc_concurrency.Pool.Balance.{halted, in_range, in_range-cons, rest-mode, tasks_for, own_tasks}
use bc_concurrency.Pool.Invariant.{PoolInv, ltb→lt}
use bc_concurrency.Pool.Runs.{IsScript, start_pool-PoolInv, Step-PoolInv, Reach-PoolInv, named_mode}
use bc_concurrency.Pool.Safety.{IsFinished}
use bc_concurrency.Pool.Rank.{pool_rank, main_thread_step-rank, worker_thread_step-rank}

-- `k` steps of threads, and no other wake-up.
pub data Quiet {A : Type 0} (n : ℕ) : Pool A → ℕ → Pool A → Type 0 where
  done : {s : Pool A} → Quiet n s 0 s
  main_moves :
      {s t u : Pool A} {k : ℕ} → main_thread_step s ≡ some t → Quiet n t k u → Quiet n s (suc k) u
  worker_moves :
      {s t u : Pool A} {k : ℕ} (i : ℕ)
      → i < n
      → worker_thread_step i s ≡ some t
      → Quiet n t k u
      → Quiet n s (suc k) u

pub Quiet-Reach :
    {A : Type 0} {n : ℕ} {r s t : Pool A} {k : ℕ} → Reach n r s → Quiet n s k t → Reach n r t
Quiet-Reach r done = r
Quiet-Reach r (main_moves e q) = Quiet-Reach (later r (main e)) q
Quiet-Reach r (worker_moves i lt e q) = Quiet-Reach (later r (worker i lt e)) q

-- A thread that can move.
abbrev pub CanMove : {A : Type 0} → ℕ → Pool A → Type 0
CanMove n s = (main_thread_step s ≢ none) ⊎ ((i : ℕ) × (i < n) × (worker_thread_step i s ≢ none))

gone_or_not : {A : Type 0} (q : WorkerPc A) → (q ≡ gone) ⊎ (q ≢ gone)
gone_or_not gone = inl refl
gone_or_not q = inr (λ e. cc)

module _ {A : Type 0} {n : ℕ} where
  module _ {given : ℕ → List A} {kept : List A} where
    command_moves :
        (cs : List (Command A)) (s : Pool A)
        → PoolInv n given kept s
        → s.calling ≡ none
        → s.script ≡ cs
        → IsFinished s ⊎ CanMove n s
    unfolding next_command main_thread_step worker_thread_step in_range
    command_moves [] s v out e = inl (record { script = e; calling = out })
    command_moves (send i w ∷ cs) s v out e = inr (inl (λ z. ground arith))
    command_moves (own t ∷ cs) s v out e = inr (inl (λ z. ground arith))
    command_moves (await i ∷ cs) s v out e = inr (inl (λ z. ground arith))
    command_moves (stop i ∷ cs) s v out e = inr (inl (λ z. ground arith))
    command_moves (join i ∷ cs) s v out e = elim (gone_or_not (s.link i).worker) [
      | inl g ↦ inr (inl (λ z. ground arith))
      | inr g ↦ inr (inr (i, below, leaves g))
    ]
      where
        below : i < n
        below = ltb→lt i n (in_range-cons n (join i) cs (ap (in_range n) (sym e) ∙ v.named)).0

        at : (s.link i).main ≡ stopped
        at =
            (rest-mode (s.link i).main (v.resting i (λ q. cc))).2
              (named_mode s (join i) i cs halted halted v e (λ k. ground arith)).0

        leaves : (s.link i).worker ≢ gone → worker_thread_step i s ≢ none
        leaves g z = stopped_moves (s.link i).worker (s.link i) refl (v.links i) at g (ground arith)

    moves : (s : Pool A) → PoolInv n given kept s → IsFinished s ⊎ CanMove n s
    unfolding main_thread_step worker_thread_step
    moves s v = elim (Option-cases s.calling) [
      | inl out ↦ command_moves s.script s v out refl
      | inr (i, into) ↦
          let (call, lt) = v.calling_moves i into in
          elim (call_moves (s.link i) (v.links i) call) [
            | inl m ↦ inr (inl (main_can i into m))
            | inr w ↦ inr (inr (i, lt, worker_can i w))
          ]
    ]
      where
        main_can :
            (i : ℕ)
            → s.calling ≡ some i
            → main_step (s.link i).main (s.link i) ≢ none
            → main_thread_step s ≢ none
        main_can i into m z = ground arith

        worker_can :
            (i : ℕ)
            → worker_step (s.link i).worker (s.link i) ≢ none
            → worker_thread_step i s ≢ none
        worker_can i m z = ground arith

    bound :
        {s t : Pool A} {k : ℕ}
        → PoolInv n given kept s
        → Quiet n s k t
        → k + pool_rank n t ≤ pool_rank n s
    bound v done = omega arith
    bound {s} v (main_moves e q) =
        omega (arith, main_thread_step-rank s v e, bound (Step-PoolInv v (main e)) q)
    bound {s} v (worker_moves i lt e q) =
        omega (arith, worker_thread_step-rank i s v lt e, bound (Step-PoolInv v (worker i lt e)) q)

    go_on :
        (fuel : ℕ) (s : Pool A)
        → PoolInv n given kept s
        → pool_rank n s < fuel
        → (k : ℕ) × (t : Pool A) × Quiet n s k t × IsFinished t
    go_on zero s v h = elim h [ ]
    go_on (suc fuel) s v h = elim (moves s v) [
      | inl f ↦ (0, s, done, f)
      | inr (inl m) ↦ elim (Option-cases (main_thread_step s)) [
        | inl z ↦ absurd (m z)
        | inr (t, e) ↦
            let (k, u, q, f) =
              go_on fuel t (Step-PoolInv v (main e)) (omega (arith, main_thread_step-rank s v e)) in
            (suc k, u, main_moves e q, f)
      ]
      | inr (inr (i, lt, m)) ↦ elim (Option-cases (worker_thread_step i s)) [
        | inl z ↦ absurd (m z)
        | inr (t, e) ↦
            let (k, u, q, f) =
              go_on fuel t (Step-PoolInv v (worker i lt e))
                (omega (arith, worker_thread_step-rank i s v lt e)) in
            (suc k, u, worker_moves i lt e q, f)
      ]
    ]

module _ {A : Type 0} {n : ℕ} {script : List (Command A)} {s : Pool A} (v : IsScript n script)
    (r : Reach n (start_pool script) s) where
  inv : PoolInv n (λ i. tasks_for i script) (own_tasks script) s
  inv = Reach-PoolInv (start_pool-PoolInv v) r

  -- For a balanced script over workers below n, from every state that the threads reach, with any
  -- wake-ups before: a run of threads' steps, with no wake-up but the signals' from there on, has at
  -- most as many steps as the rank of the state, and where it ends, either the main thread has returned
  -- from its last call, or it can move, or one of the workers can.
  pub always_returns :
      {k : ℕ} {t : Pool A} → Quiet n s k t → (k ≤ pool_rank n s) × (IsFinished t ⊎ CanMove n t)
  always_returns {k} {t} q =
      (omega (arith, bound inv q), moves t (Reach-PoolInv inv (Quiet-Reach here q)))

  -- For a balanced script over workers below n, from every state that the threads reach, steps of the
  -- threads lead to a state where the main thread has returned from its last call.
  pub can_finish : (k : ℕ) × (t : Pool A) × Quiet n s k t × IsFinished t
  can_finish = go_on (suc (pool_rank n s)) s inv (omega arith)
