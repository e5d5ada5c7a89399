-- ===== src/Pool/Rank.antt =====
-- A number that falls with each step of a thread.
use bc_concurrency.Base.{
  ℕ, zero, suc, ◌+◌, ◌<◌, ◌≤◌, ◌≡◌, ◌≢◌, inl, inr, refl, ap, true, Option, none, some, Option-cases,
  List, [], ◌∷◌, length, arith, if◌then◌else◌, update,
}
use native.Mathlib.Decide.{ℕ_discrete}
use bc_concurrency.Worker.{MainPc, send_lock, wait_lock, stop_lock, Link, main_step, worker_step}
use bc_concurrency.Worker.Progress.{at_rest, rank, main_rank, main_step-rank, worker_step-rank}
use bc_concurrency.Pool.{
  Command, send, own, await, stop, join, Pool, call, set_link, next_command, main_thread_step,
  worker_thread_step,
}
use bc_concurrency.Pool.Balance.{in_range}
use bc_concurrency.Pool.Invariant.{PoolInv, some-inj, ltb→lt}

unfoldable pub total : (ℕ → ℕ) → ℕ → ℕ
total f zero = 0
total f (suc n) = f n + total f n

module _ {A : Type 0} where
  total-above :
      (f : ℕ → Link A) (i : ℕ) (l : Link A) (n : ℕ)
      → n ≤ i
      → total (λ j. rank (update f i l j)) n ≡ total (λ j. rank (f j)) n
  unfolding total
  total-above f i l zero h = refl
  total-above f i l (suc n) h =
      omega (arith, total-above f i l n (omega arith), ap rank (other n (omega arith)))
    where
      other : (j : ℕ) → j < i → update f i l j ≡ f j
      other j lt = ground arith

  total-update :
      (f : ℕ → Link A) (i : ℕ) (l : Link A) (n : ℕ)
      → i < n
      → total (λ j. rank (update f i l j)) n + rank (f i) ≡ total (λ j. rank (f j)) n + rank l
  unfolding total
  total-update f i l zero h = elim h [ ]
  total-update f i l (suc n) h = elim (ℕ_discrete i n) [
    | yes e ↦
        omega (arith, total-above f i l n (omega arith), ap rank (hit n e), ap (λ k. rank (f k)) e)
    | no ne ↦ omega (arith, total-update f i l n (omega arith), ap rank (miss n ne))
  ]
    where
      hit : (j : ℕ) → i ≡ j → update f i l j ≡ l
      hit j e = ground arith

      miss : (j : ℕ) → i ≢ j → update f i l j ≡ f j
      miss j ne = ground arith

  -- More than the steps that the call of a command can make.
  unfoldable pub script_rank : List (Command A) → ℕ
  script_rank [] = 0
  script_rank (send i w ∷ cs) = 20 + length w + script_rank cs
  script_rank (own t ∷ cs) = 1 + script_rank cs
  script_rank (await i ∷ cs) = 5 + script_rank cs
  script_rank (stop i ∷ cs) = 8 + script_rank cs
  script_rank (join i ∷ cs) = 1 + script_rank cs

  unfoldable pub pool_rank : ℕ → Pool A → ℕ
  pool_rank n s = script_rank s.script + total (λ i. rank (s.link i)) n

  call-rank :
      (n : ℕ) (s : Pool A) (i : ℕ) (p : MainPc A) (cs : List (Command A))
      → i < n
      → pool_rank n (call s i p cs) ≤ script_rank cs + total (λ j. rank (s.link j)) n + main_rank p
  unfolding pool_rank
  call-rank n s i p cs lt =
      omega (arith, total-update s.link i (record (s.link i) { main = p }) n lt)

  begun :
      {n : ℕ} (s : Pool A) {t : Pool A} {cs : List (Command A)} (i : ℕ) (p : MainPc A)
      → call s i p cs ≡ t
      → i < n
      → script_rank cs + main_rank p < script_rank s.script
      → pool_rank n t < pool_rank n s
  unfolding pool_rank
  begun {n} s {t} {cs} i p e lt h =
      omega (arith, call-rank n s i p cs lt, ap (λ k. pool_rank n k) e)

  link-rank :
      {n : ℕ} (s : Pool A) {t : Pool A} (c : Option ℕ) (i : ℕ) (l : Link A)
      → set_link s c i l ≡ t
      → i < n
      → rank l < rank (s.link i)
      → pool_rank n t < pool_rank n s
  unfolding pool_rank
  link-rank {n} s c i l e lt h = omega (
    arith,
    total-update s.link i l n lt,
    ap (λ k. script_rank k.script) e,
    ap (λ k. total (λ j. rank (k.link j)) n) e,
  )

  next_command-rank :
      (n : ℕ) (cs : List (Command A)) (s : Pool A) {t : Pool A}
      → s.script ≡ cs
      → in_range n cs ≡ true
      → next_command cs s ≡ some t
      → pool_rank n t < pool_rank n s
  unfolding next_command pool_rank script_rank in_range
  next_command-rank n [] s e r h = cc
  next_command-rank n (send i w ∷ cs) s e r h =
      begun s i (send_lock w) (some-inj h) (ltb→lt i n (ground arith))
        (omega (arith, ap script_rank e))
  next_command-rank n (own t ∷ cs) s e r h = omega (
    arith,
    ap script_rank e,
    ap (λ k. script_rank k.script) (some-inj h),
    ap (λ k. total (λ j. rank (k.link j)) n) (some-inj h),
  )
  next_command-rank n (await i ∷ cs) s e r h =
      begun s i wait_lock (some-inj h) (ltb→lt i n (ground arith)) (omega (arith, ap script_rank e))
  next_command-rank n (stop i ∷ cs) s e r h =
      begun s i stop_lock (some-inj h) (ltb→lt i n (ground arith)) (omega (arith, ap script_rank e))
  next_command-rank n (join i ∷ cs) s {t} e r h = omega (
    arith,
    ap script_rank e,
    ap (λ k. script_rank k.script) popped_,
    ap (λ k. total (λ j. rank (k.link j)) n) popped_,
  )
    where
      popped_ : record s { script = cs } ≡ t
      popped_ = ground arith

  pub main_thread_step-rank :
      {n : ℕ} {given : ℕ → List A} {kept : List A} (s : Pool A) {t : Pool A}
      → PoolInv n given kept s
      → main_thread_step s ≡ some t
      → pool_rank n t < pool_rank n s
  unfolding main_thread_step
  main_thread_step-rank {n} s {t} v e = elim (Option-cases s.calling) [
    | inl out ↦ next_command-rank n s.script s refl v.named (ground arith)
    | inr (i, into) ↦ elim (Option-cases (main_step (s.link i).main (s.link i))) [
      | inl z ↦ absurd (stuck_call i into z)
      | inr (l, z) ↦
          link-rank s (if at_rest l.main then none else some i) i l (moved i l into z)
            (v.calling_moves i into).1 (main_step-rank (s.link i).main (s.link i) refl z)
    ]
  ]
    where
      stuck_call : (i : ℕ) → s.calling ≡ some i → main_step (s.link i).main (s.link i) ≢ none
      stuck_call i into z = ground arith

      moved :
          (i : ℕ) (l : Link A)
          → s.calling ≡ some i
          → main_step (s.link i).main (s.link i) ≡ some l
          → set_link s (if at_rest l.main then none else some i) i l ≡ t
      moved i l into z = ground arith

  pub worker_thread_step-rank :
      {n : ℕ} {given : ℕ → List A} {kept : List A} (i : ℕ) (s : Pool A) {t : Pool A}
      → PoolInv n given kept s
      → i < n
      → worker_thread_step i s ≡ some t
      → pool_rank n t < pool_rank n s
  unfolding worker_thread_step
  worker_thread_step-rank i s {t} v lt e =
      elim (Option-cases (worker_step (s.link i).worker (s.link i))) [
        | inl z ↦ absurd (stuck_call z)
        | inr (l, z) ↦
            link-rank s s.calling i l (moved l z) lt
              (worker_step-rank (s.link i).worker (s.link i) refl z (v.links i))
      ]
    where
      stuck_call : worker_step (s.link i).worker (s.link i) ≢ none
      stuck_call z = ground arith

      moved :
          (l : Link A)
          → worker_step (s.link i).worker (s.link i) ≡ some l
          → set_link s s.calling i l ≡ t
      moved l z = ground arith
