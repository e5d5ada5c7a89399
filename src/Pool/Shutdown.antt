-- ===== src/Pool/Shutdown.antt =====
-- The end of a session: who is left when every worker has been stopped and joined.
use bc_concurrency.Base.{
  ℕ, zero, suc, ◌+◌, ◌<◌, ◌≤◌, ◌≡◌, ◌≢◌, ◌⊎◌, inl, inr, refl, sym, ap, ◌∙◌, Bool, true, false, ◌||◌,
  none, some, Option-cases, List, [], ◌∷◌, ◌++◌, arith, ◌==◌, if◌then◌else◌, update, update_cases,
}
use bc_concurrency.Worker.{
  gone, MainPc, idle, Link, rouse_main, rouse_worker, main_step, worker_step,
}
use bc_concurrency.Worker.Progress.{at_rest}
use bc_concurrency.Pool.{
  Command, send, own, await, stop, join, Pool, set_link, next_command, main_thread_step,
  worker_thread_step, start_pool, Step, main, worker, wake_main, wake_worker, Reach, here, later,
}
use bc_concurrency.Pool.Scripts.{dispatch_script, stops, joins, shutdown, session}
use bc_concurrency.Pool.Safety.{IsFinished}
use bc_concurrency.Pool.Sessions.{session-IsScript}
use bc_concurrency.Pool.Progress.{Quiet, Quiet-Reach, CanMove, always_returns}
use bc_concurrency.Pool.Rank.{pool_rank}

module _ {A : Type 0} where
  -- Worker `i` is joined in the rest of the script.
  unfoldable pub joined : ℕ → List (Command A) → Bool
  joined i [] = false
  joined i (send j w ∷ cs) = joined i cs
  joined i (own t ∷ cs) = joined i cs
  joined i (await j ∷ cs) = joined i cs
  joined i (stop j ∷ cs) = joined i cs
  joined i (join j ∷ cs) = j == i || joined i cs

  -- A worker that is gone stays so.
  main_step-gone :
      (p : MainPc A) (l : Link A) {l' : Link A}
      → main_step p l ≡ some l'
      → l.worker ≡ gone
      → l'.worker ≡ gone
  unfolding main_step rouse_worker
  main_step-gone idle l e g = cc
  main_step-gone p l e g = ground arith

  link-gone :
      (i j : ℕ) (f : ℕ → Link A) (l : Link A)
      → ((f j).worker ≡ gone → l.worker ≡ gone)
      → (f i).worker ≡ gone
      → (update f j l i).worker ≡ gone
  link-gone i j f l keeps g =
      update_cases (λ k. k.worker ≡ gone) f j l i (λ e. keeps (ap (λ k. (f k).worker) e ∙ g))
        (λ e. g)

  next_command-Left :
      (i : ℕ) (cs : List (Command A)) (s : Pool A) {t : Pool A}
      → s.script ≡ cs
      → next_command cs s ≡ some t
      → (joined i s.script ≡ true) ⊎ ((s.link i).worker ≡ gone)
      → (joined i t.script ≡ true) ⊎ ((t.link i).worker ≡ gone)
  unfolding next_command joined
  next_command-Left i [] s e h v = cc
  next_command-Left i (send j w ∷ cs) s e h v = ground (arith, ap (joined i) e)
  next_command-Left i (own t ∷ cs) s e h v = ground (arith, ap (joined i) e)
  next_command-Left i (await j ∷ cs) s e h v = ground (arith, ap (joined i) e)
  next_command-Left i (stop j ∷ cs) s e h v = ground (arith, ap (joined i) e)
  next_command-Left i (join j ∷ cs) s e h v = ground (arith, ap (joined i) e)

  Step-Left :
      {n : ℕ} {s t : Pool A} (i : ℕ)
      → Step n s t
      → (joined i s.script ≡ true) ⊎ ((s.link i).worker ≡ gone)
      → (joined i t.script ≡ true) ⊎ ((t.link i).worker ≡ gone)
  unfolding main_thread_step worker_thread_step rouse_worker worker_step
  Step-Left {n} {s} {t} i (main e) v = elim (Option-cases s.calling) [
    | inl out ↦ next_command-Left i s.script s {t = t} refl (ground arith) v
    | inr (j, into) ↦ elim (Option-cases (main_step (s.link j).main (s.link j))) [
      | inl z ↦ absurd (stuck_call j into z)
      | inr (l, z) ↦ elim v [
        | inl o ↦ inl (ground arith)
        | inr g ↦
            let k = link-gone i j s.link l (main_step-gone (s.link j).main (s.link j) z) g in
            inr (ap (λ q. (q.link i).worker) (sym (moved j l into z)) ∙ k)
      ]
    ]
  ]
    where
      stuck_call : (j : ℕ) → s.calling ≡ some j → main_step (s.link j).main (s.link j) ≢ none
      stuck_call j into z = ground arith

      moved :
          (j : ℕ) (l : Link A)
          → s.calling ≡ some j
          → main_step (s.link j).main (s.link j) ≡ some l
          → set_link s (if at_rest l.main then none else some j) j l ≡ t
      moved j l into z = ground arith
  Step-Left {n} {s} {t} i (worker j lt e) v =
      elim (Option-cases (worker_step (s.link j).worker (s.link j))) [
        | inl z ↦ absurd (stuck_call z)
        | inr (l, z) ↦ elim v [
          | inl o ↦ inl (ap (λ q. joined i q.script) (sym (moved l z)) ∙ o)
          | inr g ↦
              let k = link-gone i j s.link l (λ q. absurd (still q z)) g in
              inr (ap (λ q. (q.link i).worker) (sym (moved l z)) ∙ k)
        ]
      ]
    where
      stuck_call : worker_step (s.link j).worker (s.link j) ≢ none
      stuck_call z = ground arith

      still :
          {l : Link A}
          → (s.link j).worker ≡ gone
          → worker_step (s.link j).worker (s.link j) ≢ some l
      still q z = cc (ap (λ p. worker_step p (s.link j)) q)

      moved :
          (l : Link A)
          → worker_step (s.link j).worker (s.link j) ≡ some l
          → set_link s s.calling j l ≡ t
      moved l z = ground arith
  Step-Left {n} {s} i (wake_main j) v = elim v [
    | inl o ↦ inl o
    | inr g ↦
        inr (
          link-gone i j s.link (record (s.link j) { main = rouse_main (s.link j).main }) (λ q. q) g)
  ]
  Step-Left {n} {s} i (wake_worker j) v = elim v [
    | inl o ↦ inl o
    | inr g ↦ inr (
        link-gone i j s.link (record (s.link j) { worker = rouse_worker (s.link j).worker })
          (λ q. ap rouse_worker q) g)
  ]

  Reach-Left :
      {n : ℕ} {s t : Pool A} (i : ℕ)
      → Reach n s t
      → joined i s.script ≡ true
      → (joined i t.script ≡ true) ⊎ ((t.link i).worker ≡ gone)
  Reach-Left i here o = inl o
  Reach-Left i (later r e) o = Step-Left i e (Reach-Left i r o)

  joined-append :
      (i : ℕ) (cs ds : List (Command A)) → joined i ds ≡ true → joined i (cs ++ ds) ≡ true
  unfolding joined
  joined-append i [] ds h = h
  joined-append i (send j w ∷ cs) ds h = joined-append i cs ds h
  joined-append i (own t ∷ cs) ds h = joined-append i cs ds h
  joined-append i (await j ∷ cs) ds h = joined-append i cs ds h
  joined-append i (stop j ∷ cs) ds h = joined-append i cs ds h
  joined-append i (join j ∷ cs) ds h = ground (arith, joined-append i cs ds)

joined-joins : (A : Type 0) (i n k : ℕ) → k ≤ i → i < k + n → joined i (joins {A = A} n k) ≡ true
unfolding joined joins
joined-joins A i zero k lo hi = absurd (omega arith)
joined-joins A i (suc n) k lo hi = ground (arith, joined-joins A i n (k + 1))

module _ {A : Type 0} where
  joined-session : (i n : ℕ) (batches : List (List A)) → i < n → joined i (session n batches) ≡ true
  unfolding session shutdown
  joined-session i n [] lt =
      joined-append i (stops n 0) (joins n 0) (joined-joins A i n 0 (omega arith) (omega arith))
  joined-session i n (b ∷ bs) lt =
      joined-append i (dispatch_script n b) (session n bs) (joined-session i n bs lt)

  -- Take any dispatches followed by the shutdown, and any state that the threads reach in it, with any
  -- wake-ups before. A run of threads' steps from there on, with no wake-up but the signals', has at most
  -- as many steps as the rank of the state, and where it ends, some thread can move, or the main
  -- thread has returned from the shutdown and every worker's thread from its routine.
  pub session_gone :
      (n : ℕ) (batches : List (List A)) {s t : Pool A} {k : ℕ} (i : ℕ)
      → i < n
      → Reach n (start_pool (session n batches)) s
      → Quiet n s k t
      → (k ≤ pool_rank n s) × (CanMove n t ⊎ (IsFinished t × ((t.link i).worker ≡ gone)))
  unfolding joined
  session_gone n batches i lt r q =
      let (few, ends) = always_returns (session-IsScript n batches) r q in
      (
        few,
        elim ends [
          | inl f ↦ inr (
            f,
            elim (Reach-Left i (Quiet-Reach r q) (joined-session i n batches lt)) [
              | inl o ↦ cc (ap (joined i) f.script)
              | inr g ↦ g
            ],
          )
          | inr more ↦ inl more
        ],
      )
