-- ===== src/Pool/Runs.antt =====
-- The invariant over the steps of all threads.
use bc_concurrency.Base.{
  ℕ, ◌≡◌, ◌≢◌, inl, inr, refl, sym, ap, ◌∙◌, Bool, true, false, none, some, Option-cases, List, [],
  ◌∷◌, ◌++◌, arith, if◌then◌else◌,
}
use mathlib.Core.List.{append_assoc}
use mathlib.Core.Path.{subst}
use bc_concurrency.Worker.{
  WorkerPc, gone, MainPc, idle, send_lock, wait_lock, stop_lock, Link, rouse_main, rouse_worker,
  main_step, worker_step,
}
use bc_concurrency.Worker.Invariant.{
  LinkInv, with_main, with_worker, waiting, fresh_link-LinkInv, main_step-LinkInv,
  worker_step-LinkInv, rouse_main-LinkInv, rouse_worker-LinkInv,
}
use bc_concurrency.Worker.Tasks.{tasks, main_step-tasks, worker_step-tasks, send_tasks}
use bc_concurrency.Worker.Progress.{at_rest}
use bc_concurrency.Pool.{
  Command, send, own, await, stop, join, Pool, set_link, next_command, main_thread_step,
  worker_thread_step, start_pool, Step, main, worker, wake_main, wake_worker, Reach, here, later,
}
use bc_concurrency.Pool.Balance.{
  Mode, free, busy, halted, mode, if_mode, next_mode, balanced, in_range, tasks_for, own_tasks,
  main_step-mode, worker_step-main, balanced-cons, in_range-cons, rest-mode,
}
use bc_concurrency.Pool.Invariant.{
  PoolInv, set_link-PoolInv, start-PoolInv, some-inj, begin-LinkInv,
}

-- A command that only its own worker may be named by allows one mode of it.
if_mode-eq : (m k m' : Mode) → if_mode m k m' ≢ none → (k ≡ m) × (if_mode m k m' ≡ some m')
if_mode-eq m k m' h = ground arith

-- The main thread is in the call on worker `i` until it is at rest there.
after_call :
    (r : Bool) (i : ℕ)
    → let c = if r then none else some i in
      (c ≢ some i → r ≡ true) × (c ≡ some i → r ≡ false) × ((j : ℕ) → c ≡ some j → i ≡ j)
after_call true i = (λ d. refl, λ e. cc, λ j e. cc)
after_call false i = (λ d. absurd (d refl), λ e. refl, λ j e. cc)

woken_main :
    {A : Type 0} (p : MainPc A)
    → (mode (rouse_main p) ≡ mode p)
      × (at_rest (rouse_main p) ≡ at_rest p)
      × (with_main (rouse_main p) ≡ with_main p)
unfolding rouse_main
woken_main idle = (refl, refl, refl)
woken_main _ = (refl, refl, refl)

woken_worker : {A : Type 0} (p : WorkerPc A) → with_worker (rouse_worker p) ≡ with_worker p
unfolding rouse_worker
woken_worker gone = refl
woken_worker _ = refl

module _ {A : Type 0} {n : ℕ} {given : ℕ → List A} {kept : List A} where
  -- The mode of the worker that the next command names.
  pub named_mode :
      (s : Pool A) (c : Command A) (i : ℕ) (cs : List (Command A)) (m m' : Mode)
      → PoolInv n given kept s
      → s.script ≡ c ∷ cs
      → ((k : Mode) → next_mode i k c ≡ if_mode m k m')
      → (mode (s.link i).main ≡ m) × (next_mode i (mode (s.link i).main) c ≡ some m')
  named_mode s c i cs m m' v e shape =
      let (k, g, b) =
        balanced-cons i (mode (s.link i).main) c cs
          (ap (balanced i (mode (s.link i).main)) (sym e) ∙ v.turns i) in
      let (one, two) =
        if_mode-eq m (mode (s.link i).main) m'
          (λ z. ground (arith, shape (mode (s.link i).main))) in
      (one, shape (mode (s.link i).main) ∙ two)

  -- A command that no call belongs to.
  pop-PoolInv :
      (s : Pool A) (c : Command A) (cs : List (Command A)) (ran : List A)
      → PoolInv n given kept s
      → s.script ≡ c ∷ cs
      → ((j : ℕ) (m m' : Mode) → next_mode j m c ≡ some m' → m' ≡ m)
      → ((j : ℕ) → tasks_for j (c ∷ cs) ≡ tasks_for j cs)
      → ran ++ own_tasks cs ≡ s.main_ran ++ own_tasks (c ∷ cs)
      → PoolInv n given kept (record s { script = cs; main_ran = ran })
  pop-PoolInv s c cs ran v e same none_for own_ = record {
    links = v.links;
    resting = v.resting;
    calling_moves = v.calling_moves;
    turns = λ j.
        let (m, g, b) =
          balanced-cons j (mode (s.link j).main) c cs
            (ap (balanced j (mode (s.link j).main)) (sym e) ∙ v.turns j) in
        subst (λ k. balanced j k cs ≡ true) (same j (mode (s.link j).main) m g) b;
    named = (in_range-cons n c cs (ap (in_range n) (sym e) ∙ v.named)).1;
    account = λ j.
        ap (λ l. tasks (s.link j) ++ l) (sym (none_for j) ∙ ap (tasks_for j) (sym e)) ∙ v.account j;
    account_main = own_ ∙ ap (λ l. s.main_ran ++ own_tasks l) (sym e) ∙ v.account_main;
  }

  next_command-PoolInv :
      (cs : List (Command A)) (s : Pool A) {t : Pool A}
      → PoolInv n given kept s
      → s.calling ≡ none
      → s.script ≡ cs
      → next_command cs s ≡ some t
      → PoolInv n given kept t
  unfolding next_command tasks_for own_tasks
  next_command-PoolInv [] s v out e h = cc
  next_command-PoolInv (send i w ∷ cs) s v out e h =
      let (was, turn) = named_mode s (send i w) i cs free busy v e (λ k. ground arith) in
      let at = (rest-mode (s.link i).main (v.resting i (λ q. cc))).0 was in
      let inv = (begin-LinkInv (s.link i) w (v.links i)).0 at in
      subst (PoolInv n given kept) (some-inj h) (
        start-PoolInv s (send i w) i (send_lock w) cs v out e inv refl refl turn
          (λ j m ne. ground arith) refl
          (ground (arith, send_tasks (s.link i) w (tasks_for i cs) at)) (λ j ne. ground arith))
  next_command-PoolInv (own t ∷ cs) s v out e h = subst (PoolInv n given kept) (some-inj h) (
      pop-PoolInv s (own t) cs (s.main_ran ++ (t ∷ [])) v e (λ j m m' g. ground arith) (λ j. refl)
        (append_assoc s.main_ran (t ∷ []) (own_tasks cs)))
  next_command-PoolInv (await i ∷ cs) s v out e h =
      let (was, turn) = named_mode s (await i) i cs busy free v e (λ k. ground arith) in
      let at = (rest-mode (s.link i).main (v.resting i (λ q. cc))).1 was in
      let inv = (begin-LinkInv (s.link i) [] (v.links i)).2 at in
      subst (PoolInv n given kept) (some-inj h) (
        start-PoolInv s (await i) i wait_lock cs v out e inv refl refl turn (λ j m ne. ground arith)
          refl (ground arith) (λ j ne. refl))
  next_command-PoolInv (stop i ∷ cs) s v out e h =
      let (was, turn) = named_mode s (stop i) i cs free halted v e (λ k. ground arith) in
      let at = (rest-mode (s.link i).main (v.resting i (λ q. cc))).0 was in
      let inv = (begin-LinkInv (s.link i) [] (v.links i)).1 at in
      subst (PoolInv n given kept) (some-inj h) (
        start-PoolInv s (stop i) i stop_lock cs v out e inv refl refl turn (λ j m ne. ground arith)
          refl (ground arith) (λ j ne. refl))
  next_command-PoolInv (join i ∷ cs) s {t} v out e h =
      subst (PoolInv n given kept) popped_
        (pop-PoolInv s (join i) cs s.main_ran v e (λ j m m' g. ground arith) (λ j. refl) refl)
    where
      popped_ : record s { script = cs } ≡ t
      popped_ = ground arith

  -- A step that is not the main thread's.
  beside-PoolInv :
      (s : Pool A) (i : ℕ) (l : Link A)
      → PoolInv n given kept s
      → LinkInv l
      → mode l.main ≡ mode (s.link i).main
      → at_rest l.main ≡ at_rest (s.link i).main
      → tasks l ≡ tasks (s.link i)
      → PoolInv n given kept (set_link s s.calling i l)
  beside-PoolInv s i l v inv same_mode same_rest same_tasks =
      set_link-PoolInv s s.calling i l v inv same_mode same_tasks (λ d. same_rest ∙ v.resting i d)
        (λ d. same_rest ∙ (v.calling_moves i d).0) (λ j e. e) (λ j ne e. e)

  pub Step-PoolInv : {s t : Pool A} → PoolInv n given kept s → Step n s t → PoolInv n given kept t
  unfolding main_thread_step worker_thread_step rouse_main rouse_worker
  Step-PoolInv {s} {t} v (main e) = elim (Option-cases s.calling) [
    | inl out ↦ next_command-PoolInv s.script s v out refl (ground arith)
    | inr (i, into) ↦ elim (Option-cases (main_step (s.link i).main (s.link i))) [
      | inl z ↦ absurd (stuck_call i into z)
      | inr (l, z) ↦
          let c = if at_rest l.main then none else some i in
          subst (PoolInv n given kept) (moved i l into z) (
            set_link-PoolInv s c i l v
              (main_step-LinkInv (s.link i).main (s.link i) refl z (v.links i))
              (main_step-mode (s.link i).main (s.link i) refl z)
              (main_step-tasks (s.link i).main (s.link i) refl z (v.links i))
              (after_call (at_rest l.main) i).0 (after_call (at_rest l.main) i).1
              (λ j q. into ∙ ap some ((after_call (at_rest l.main) i).2 j q))
              (λ j ne q. absurd (ne (some-inj (sym into ∙ q)))))
    ]
  ]
    where
      stuck_call : (i : ℕ) → s.calling ≡ some i → main_step (s.link i).main (s.link i) ≢ none
      stuck_call i into z = ground arith

      moved :
          (i : ℕ) (l : Link A)
          → s.calling ≡ some i
          → main_step (s.link i).main (s.link i) ≡ some l
          → set_link s (if at_rest l.main then none else some i) i l ≡ t
      moved i l into z = ground arith
  Step-PoolInv {s} {t} v (worker i lt e) =
      elim (Option-cases (worker_step (s.link i).worker (s.link i))) [
        | inl z ↦ absurd (stuck_call z)
        | inr (l, z) ↦
            let (same_mode, same_rest) = worker_step-main (s.link i).worker (s.link i) z in
            subst (PoolInv n given kept) (moved l z) (
              beside-PoolInv s i l v
                (worker_step-LinkInv (s.link i).worker (s.link i) refl z (v.links i)) same_mode
                same_rest (worker_step-tasks (s.link i).worker (s.link i) refl z (v.links i)))
      ]
    where
      stuck_call : worker_step (s.link i).worker (s.link i) ≢ none
      stuck_call z = ground arith

      moved :
          (l : Link A)
          → worker_step (s.link i).worker (s.link i) ≡ some l
          → set_link s s.calling i l ≡ t
      moved l z = ground arith
  Step-PoolInv {s} v (wake_main i) =
      beside-PoolInv s i (record (s.link i) { main = rouse_main (s.link i).main }) v
        (rouse_main-LinkInv (s.link i) (v.links i)) (woken_main (s.link i).main).0
        (woken_main (s.link i).main).1
        (ap
          (λ m.
            (s.link i).ran
            ++ (with_worker (s.link i).worker
                ++ (waiting (s.link i).ready_flag (s.link i).work ++ m)))
          (woken_main (s.link i).main).2)
  Step-PoolInv {s} v (wake_worker i) =
      beside-PoolInv s i (record (s.link i) { worker = rouse_worker (s.link i).worker }) v
        (rouse_worker-LinkInv (s.link i) (v.links i)) refl refl
        (ap
          (λ w.
            (s.link i).ran
            ++ (w ++ (waiting (s.link i).ready_flag (s.link i).work ++ with_main (s.link i).main)))
          (woken_worker (s.link i).worker))

  pub Reach-PoolInv : {s t : Pool A} → PoolInv n given kept s → Reach n s t → PoolInv n given kept t
  Reach-PoolInv v here = v
  Reach-PoolInv v (later r e) = Step-PoolInv (Reach-PoolInv v r) e

-- A script that the code makes: balanced for every worker, over workers below `n`.
pub record IsScript {A : Type 0} (n : ℕ) (script : List (Command A)) : Type 0 where
  pub turns : (i : ℕ) → balanced i free script ≡ true
  pub named : in_range n script ≡ true

pub start_pool-PoolInv :
    {A : Type 0} {n : ℕ} {script : List (Command A)}
    → IsScript n script
    → PoolInv n (λ i. tasks_for i script) (own_tasks script) (start_pool script)
start_pool-PoolInv {A} {n} {script} v = record {
  links = λ i. fresh_link-LinkInv;
  resting = λ i d. refl;
  calling_moves = λ i e. cc;
  turns = v.turns;
  named = v.named;
  account = λ i. refl;
  account_main = refl;
}
