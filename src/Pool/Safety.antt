-- ===== src/Pool/Safety.antt =====
-- The states that the threads reach from the start of a script.
use mathlib.Core.List.{append-nil, append_assoc}
use bc_concurrency.Base.{ℕ, ◌≡◌, ◌≢◌, refl, sym, ap, ◌∙◌, true, false, none, List, [], ◌++◌, arith}
use bc_concurrency.Worker.{crashed, idle, MainPc}
use bc_concurrency.Worker.Invariant.{
  LinkInv, engaged, with_main, in_flight, main_holds, worker_holds,
}
use bc_concurrency.Worker.Tasks.{tasks, quiet_tasks}
use bc_concurrency.Worker.Progress.{at_rest}
use bc_concurrency.Pool.{Command, Pool, start_pool, Reach}
use bc_concurrency.Pool.Balance.{mode, balanced, tasks_for, own_tasks}
use bc_concurrency.Pool.Invariant.{PoolInv}
use bc_concurrency.Pool.Runs.{IsScript, start_pool-PoolInv, Reach-PoolInv}

-- The main thread has returned from its last call.
pub record IsFinished {A : Type 0} (s : Pool A) : Type 0 where
  pub script : s.script ≡ []
  pub calling : s.calling ≡ none

not_busy :
    {A : Type 0} (i : ℕ) (p : MainPc A)
    → at_rest p ≡ true
    → balanced {A = A} i (mode p) [] ≡ true
    → (engaged p ≡ false) × (with_main p ≡ [])
unfolding balanced
not_busy i idle r b = (refl, refl)
not_busy i p r b = ground arith

module _ {A : Type 0} {n : ℕ} {script : List (Command A)} {s : Pool A} (v : IsScript n script)
    (r : Reach n (start_pool script) s) where
  inv : PoolInv n (λ i. tasks_for i script) (own_tasks script) s
  inv = Reach-PoolInv (start_pool-PoolInv v) r

  -- For a balanced script over workers below n, in every state that the threads reach: a worker and
  -- the main thread never hold the worker's mutex together, and no worker reads work through NULL.
  pub exclusive :
      (i : ℕ)
      → (¬ ((main_holds (s.link i).main ≡ true) × (worker_holds (s.link i).worker ≡ true)))
        × ((s.link i).worker ≢ crashed)
  exclusive i = (λ h. clash (inv.links i) h.0 h.1, (inv.links i).whole)
    where
      clash :
          LinkInv (s.link i)
          → main_holds (s.link i).main ≡ true
          → worker_holds (s.link i).worker ≡ true
          → ⊥
      clash l m w = cc (l.main_has m, l.worker_has w)

  -- For a balanced script over workers below n, in every state that the threads reach: the tasks that
  -- a worker has run are a beginning of those that the script hands to it, in their order.
  pub ran_prefix : (i : ℕ) → (rest : List A) × ((s.link i).ran ++ rest ≡ tasks_for i script)
  ran_prefix i = (
    in_flight (s.link i) ++ tasks_for i s.script,
    sym (append_assoc (s.link i).ran (in_flight (s.link i)) (tasks_for i s.script)) ∙ inv.account i,
  )

  -- For a balanced script over workers below n, in every state that the threads reach: where the main
  -- thread has waited for a worker, or has handed nothing to it, the worker has run all tasks but those
  -- that the rest of the script hands to it.
  pub waited_ran :
      (i : ℕ) → (s.link i).main ≡ idle → (s.link i).ran ++ tasks_for i s.script ≡ tasks_for i script
  waited_ran i e =
      ap (λ l. l ++ tasks_for i s.script)
        (sym (quiet_tasks (s.link i) (inv.links i) (ap engaged e) (ap with_main e)))
      ∙ inv.account i

  -- For a balanced script over workers below n: where the main thread has returned from its last call,
  -- each worker has run the tasks that the script hands to it, in their order and each once, and the
  -- main thread has run its own.
  pub finished_ran :
      IsFinished s
      → ((i : ℕ) → (s.link i).ran ≡ tasks_for i script) × (s.main_ran ≡ own_tasks script)
  unfolding tasks_for own_tasks
  finished_ran f = (
    λ i.
        let rests = inv.resting i (λ q. cc (f.calling, q)) in
        let b = ap (balanced i (mode (s.link i).main)) (sym f.script) ∙ inv.turns i in
        let (off, nothing) = not_busy i (s.link i).main rests b in
        sym (quiet_tasks (s.link i) (inv.links i) off nothing)
        ∙ sym (append-nil (tasks (s.link i)))
        ∙ ap (λ c. tasks (s.link i) ++ tasks_for i c) (sym f.script)
        ∙ inv.account i,
    sym (append-nil s.main_ran)
        ∙ ap (λ c. s.main_ran ++ own_tasks c) (sym f.script)
        ∙ inv.account_main,
  )
