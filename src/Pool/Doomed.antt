-- ===== src/Pool/Doomed.antt =====
-- A worker whose `should_stop` was set before its thread started.
use mathlib.Core.Path.{subst}
use bc_concurrency.Base.{
  ℕ, ◌<◌, ◌≡◌, ◌≢◌, ◌⊎◌, inl, inr, refl, sym, ap, ◌∙◌, Bool, true, false, ◌||◌, Option, none, some,
  Option-cases, List, [], ◌∷◌, arith, ◌==◌, if◌then◌else◌, update, update_cases,
}
use bc_concurrency.Worker.{
  WorkerPc, enter, look, asleep, roused, leave, run, gone, MainPc, idle, send_lock, wait_lock,
  wait_look, wait_asleep, wait_roused, stop_lock, Link, rouse_worker, rouse_main, main_step,
  worker_step, fresh_link,
}
use bc_concurrency.Worker.Progress.{at_rest}
use bc_concurrency.Pool.{
  Command, send, own, await, stop, join, Pool, call, set_link, next_command, in_call, linked,
  main_thread_step, worker_thread_step, start_pool, Step, main, worker, wake_main, wake_worker,
  Reach, here, later,
}
use bc_concurrency.Pool.Invariant.{some-inj}
use bc_concurrency.Spawning.{Answers, Crew, create_threads, ensure_workers_spawned}
use bc_concurrency.Spawning.Retry.{retry_stopped}
use bc_concurrency.Pool.Safety.{IsFinished}

module _ {A : Type 0} where
  abbrev early : WorkerPc A → Bool
  early enter = true
  early look = true
  early asleep = true
  early roused = true
  early leave = true
  early gone = true
  early _ = false

  abbrev waits : MainPc A → Bool
  waits wait_lock = true
  waits wait_look = true
  waits wait_asleep = true
  waits wait_roused = true
  waits _ = false

  -- The worker does nothing, and is waited for.
  record IsDoomed (l : Link A) : Type 0 where
    stop : l.should_stop ≡ true
    undone : l.done_flag ≡ false
    nothing : l.ran ≡ []
    first : early l.worker ≡ true

  main_step-IsDoomed :
      (p : MainPc A) (l : Link A) {l' : Link A}
      → l.main ≡ p
      → main_step p l ≡ some l'
      → IsDoomed l
      → IsDoomed l' × (waits p ≡ true → (waits l'.main ≡ true) × (at_rest l'.main ≡ false))
  unfolding main_step
  main_step-IsDoomed idle l m e d = cc
  main_step-IsDoomed p l m e d = (ground arith, λ h. ground arith)

  worker_step-IsDoomed :
      (p : WorkerPc A) (l : Link A) {l' : Link A}
      → l.worker ≡ p
      → worker_step p l ≡ some l'
      → IsDoomed l
      → IsDoomed l' × (l'.main ≡ l.main)
  unfolding worker_step
  worker_step-IsDoomed enter l m e d = (ground arith, ground arith)
  worker_step-IsDoomed (run []) l m e d = (ground arith, ground arith)
  worker_step-IsDoomed (run (t ∷ ts)) l m e d = (ground arith, ground arith)
  worker_step-IsDoomed p l m e d = (ground arith, ground arith)

  -- The main thread is to wait for worker `i`.
  unfoldable pub awaited : ℕ → List (Command A) → Bool
  awaited i [] = false
  awaited i (send j w ∷ cs) = awaited i cs
  awaited i (own t ∷ cs) = awaited i cs
  awaited i (await j ∷ cs) = j == i || awaited i cs
  awaited i (stop j ∷ cs) = awaited i cs
  awaited i (join j ∷ cs) = awaited i cs

  record Stands (i : ℕ) (c : Option ℕ) (script : List (Command A)) (l : Link A) : Type 0 where
    doomed : IsDoomed l
    pending : (awaited i script ≡ true) ⊎ ((c ≡ some i) × (waits l.main ≡ true))

  abbrev Stuck : ℕ → Pool A → Type 0
  Stuck i s = Stands i s.calling s.script (s.link i)

  -- A step of another thread, or one that keeps worker `i` as it must be.
  beside :
      (i : ℕ) (c : Option ℕ) (script : List (Command A)) (f : ℕ → Link A) (j : ℕ) (l : Link A)
      → (j ≢ i → Stands i c script (f i))
      → (j ≡ i → Stands i c script l)
      → Stands i c script (update f j l i)
  beside i c script f j l keeps changes =
      update_cases (λ k. Stands i c script k) f j l i changes keeps

  called :
      (i j : ℕ) (s : Pool A) (p : MainPc A) (cs : List (Command A))
      → IsDoomed (s.link i)
      → (awaited i cs ≡ true) ⊎ ((j ≡ i) × (waits p ≡ true))
      → Stuck i (call s j p cs)
  called i j s p cs d o =
      beside i (some j) cs s.link j (record (s.link j) { main = p })
        (λ ne. record { doomed = d; pending = inl (ground arith) })
        (λ q. record { doomed = doomed_call q; pending = ground arith })
    where
      doomed_call : j ≡ i → IsDoomed (record (s.link j) { main = p })
      doomed_call q =
          let e = subst (λ k. IsDoomed (s.link k)) (sym q) d in
          record { stop = e.stop; undone = e.undone; nothing = e.nothing; first = e.first }

  next_command-Stuck :
      (i : ℕ) (cs : List (Command A)) (s : Pool A) {t : Pool A}
      → IsDoomed (s.link i)
      → awaited i cs ≡ true
      → next_command cs s ≡ some t
      → Stuck i t
  unfolding next_command awaited
  next_command-Stuck i [] s d h e = cc
  next_command-Stuck i (send j w ∷ cs) s d h e =
      subst (Stuck i) (some-inj e) (called i j s (send_lock w) cs d (inl h))
  next_command-Stuck i (own t ∷ cs) s d h e =
      subst (Stuck i) (some-inj e) (record { doomed = d; pending = inl h })
  next_command-Stuck i (await j ∷ cs) s d h e =
      subst (Stuck i) (some-inj e) (called i j s wait_lock cs d (ground arith))
  next_command-Stuck i (stop j ∷ cs) s d h e =
      subst (Stuck i) (some-inj e) (called i j s stop_lock cs d (inl h))
  next_command-Stuck i (join j ∷ cs) s {t} d h e = record {
    doomed = subst IsDoomed {x = s.link i} {y = t.link i} (ground arith) d;
    pending = inl (ground arith);
  }

  in_call-Stuck :
      (i j : ℕ) (s : Pool A) {t : Pool A}
      → Stuck i s
      → s.calling ≡ some j
      → in_call j s (main_step (s.link j).main (s.link j)) ≡ some t
      → Stuck i t
  in_call-Stuck i j s {t} v into e = elim (Option-cases (main_step (s.link j).main (s.link j))) [
    | inl z ↦ absurd (ground arith)
    | inr (l, z) ↦ subst (Stuck i) (some-inj (ap (in_call j s) (sym z) ∙ e)) (
        beside i (if at_rest l.main then none else some j) s.script s.link j l
          (λ ne. record { doomed = v.doomed; pending = inl (elsewhere ne v.pending) })
          (λ q.
            let (d, rests) =
              main_step-IsDoomed (s.link j).main (s.link j) refl z
                (subst (λ k. IsDoomed (s.link k)) (sym q) v.doomed) in
            record {
              doomed = d;
              pending = elim v.pending [
                | inl a ↦ inl a
                | inr (at, b) ↦
                    let (w, busy) = rests (ap (λ k. waits (s.link k).main) q ∙ b) in
                    inr (ap (λ r. if r then none else some j) busy ∙ ap some q, w)
              ];
            }))
  ]
    where
      elsewhere :
          j ≢ i
          → (awaited i s.script ≡ true) ⊎ ((s.calling ≡ some i) × (waits (s.link i).main ≡ true))
          → awaited i s.script ≡ true
      elsewhere ne (inl a) = a
      elsewhere ne (inr (at, b)) = absurd (ne (some-inj (sym into ∙ at)))

  main-Stuck :
      (i : ℕ) (s : Pool A) {t : Pool A} → Stuck i s → main_thread_step s ≡ some t → Stuck i t
  unfolding main_thread_step
  main-Stuck i s {t} v e = elim (Option-cases s.calling) [
    | inl out ↦
        next_command-Stuck i s.script s {t = t} v.doomed (idle_pending out v.pending) (ground arith)
    | inr (j, into) ↦ in_call-Stuck i j s {t = t} v into (ground arith)
  ]
    where
      idle_pending :
          s.calling ≡ none
          → (awaited i s.script ≡ true) ⊎ ((s.calling ≡ some i) × (waits (s.link i).main ≡ true))
          → awaited i s.script ≡ true
      idle_pending out (inl a) = a
      idle_pending out (inr (at, b)) = cc (sym out ∙ at)

  woken_main : (p : MainPc A) → waits p ≡ true → waits (rouse_main p) ≡ true
  unfolding rouse_main
  woken_main wait_asleep h = refl
  woken_main p h = h

  woken_worker : (p : WorkerPc A) → early p ≡ true → early (rouse_worker p) ≡ true
  unfolding rouse_worker
  woken_worker asleep h = refl
  woken_worker p h = h

  -- A step or a wake-up of worker `j` that keeps what matters.
  keeps :
      (i j : ℕ) (s : Pool A) (l : Link A)
      → Stuck i s
      → (IsDoomed (s.link j) → IsDoomed l × (waits (s.link j).main ≡ true → waits l.main ≡ true))
      → Stuck i (set_link s s.calling j l)
  keeps i j s l v kept =
      beside i s.calling s.script s.link j l (λ ne. v)
        (λ q.
          let (d, rests) = kept (subst (λ k. IsDoomed (s.link k)) (sym q) v.doomed) in
          record {
            doomed = d;
            pending = elim v.pending [
              | inl a ↦ inl a
              | inr (at, b) ↦ inr (at, rests (ap (λ k. waits (s.link k).main) q ∙ b))
            ];
          })

  Step-Stuck : {n : ℕ} (i : ℕ) {s t : Pool A} → Stuck i s → Step n s t → Stuck i t
  unfolding worker_thread_step
  Step-Stuck i {s} v (main e) = main-Stuck i s v e
  Step-Stuck i {s} v (worker j lt e) =
      elim (Option-cases (worker_step (s.link j).worker (s.link j))) [
        | inl z ↦ absurd (ground arith)
        | inr (l, z) ↦ subst (Stuck i) (some-inj (ap (linked j s) (sym z) ∙ e)) (
            keeps i j s l v (λ d.
              let (d', same) = worker_step-IsDoomed (s.link j).worker (s.link j) refl z d in
              (d', λ b. ap waits same ∙ b)))
      ]
  Step-Stuck i {s} v (wake_main j) =
      keeps i j s (record (s.link j) { main = rouse_main (s.link j).main }) v
        (λ d. (
          record { stop = d.stop; undone = d.undone; nothing = d.nothing; first = d.first },
          woken_main (s.link j).main,
        ))
  Step-Stuck i {s} v (wake_worker j) =
      keeps i j s (record (s.link j) { worker = rouse_worker (s.link j).worker }) v
        (λ d. (
          record {
            stop = d.stop;
            undone = d.undone;
            nothing = d.nothing;
            first = woken_worker (s.link j).worker d.first;
          },
          λ b. b,
        ))

  Reach-Stuck : {n : ℕ} (i : ℕ) {s t : Pool A} → Stuck i s → Reach n s t → Stuck i t
  Reach-Stuck i v here = v
  Reach-Stuck i v (later r e) = Step-Stuck i (Reach-Stuck i v r) e

  -- A script over the workers of a context as spawning them has left it.
  abbrev pub crew_pool : Crew → List (Command A) → Pool A
  crew_pool c script = record (start_pool script) {
    link = λ i. record fresh_link { should_stop = c.should_stop i };
  }

  never_done :
      {n : ℕ} (c : Crew) (script : List (Command A)) (i : ℕ) {s : Pool A}
      → c.should_stop i ≡ true
      → awaited i script ≡ true
      → Reach n (crew_pool c script) s
      → (¬ IsFinished s) × ((s.link i).ran ≡ [])
  unfolding awaited
  never_done {n} c script i {s} told h r = (λ f. waiting_still f v.pending, v.doomed.nothing)
    where
      v : Stuck i s
      v =
          Reach-Stuck i
            (record {
              doomed = record { stop = told; undone = refl; nothing = refl; first = refl };
              pending = inl h;
            })
            r

      waiting_still :
          IsFinished s
          → (awaited i s.script ≡ true) ⊎ ((s.calling ≡ some i) × (waits (s.link i).main ≡ true))
          → ⊥
      waiting_still f (inl a) = cc (sym a ∙ ap (awaited i) f.script)
      waiting_still f (inr (into, m)) = cc (sym into ∙ f.calling)

  -- Where a first attempt to spawn n workers fails at thread k, a second one succeeds, and the script
  -- that the main thread then goes through waits for a worker i below k: in no state that the threads
  -- reach has that worker run a task, and in none has the main thread returned from its last call.
  pub retry_hangs :
      (a b : Answers) (n k : ℕ) (c : Crew) (script : List (Command A)) (i : ℕ) {s : Pool A}
      → c.workers_spawned ≡ false
      → a.attr_init ≡ true
      → a.attr_setstacksize ≡ true
      → (create_threads a.create n 0 c).1 ≡ some k
      → (ensure_workers_spawned b n (ensure_workers_spawned a n c).0).1 ≡ true
      → i < k
      → awaited i script ≡ true
      → Reach n (crew_pool (ensure_workers_spawned b n (ensure_workers_spawned a n c).0).0 script) s
      → (¬ IsFinished s) × ((s.link i).ran ≡ [])
  retry_hangs a b n k c script i new init size fails ok lt h r =
      never_done (ensure_workers_spawned b n (ensure_workers_spawned a n c).0).0 script i
        (retry_stopped a b n k c i new init size fails ok lt).0 h r
