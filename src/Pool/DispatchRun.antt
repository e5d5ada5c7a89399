-- ===== src/Pool/DispatchRun.antt =====
-- A dispatch over the workers: what each thread runs.
use mathlib.Core.List.{append-nil}
use bc_concurrency.Base.{
  ℕ, zero, suc, ◌+◌, ◌^◌, ◌<◌, ◌≤◌, ◌≡◌, refl, sym, ap, ap₂, ◌∙◌, ◌||◌, Bool-cases, inl, inr, List,
  [], ◌∷◌, ◌++◌, length, take, get_elem?, arith, leb, ◌==◌, if◌then◌else◌,
}
use bc_concurrency.Base.Words.{u64}
use bc_concurrency.Dispatch.{assigned}
use bc_concurrency.Dispatch.Exact.{concat, concat-last, length-assignments, concat-assignments}
use bc_concurrency.ParallelFor.Chunks.{before}
use bc_concurrency.Pool.{Command, Pool, start_pool, Reach}
use bc_concurrency.Pool.Balance.{free, balanced, in_range, tasks_for, own_tasks}
use bc_concurrency.Pool.Runs.{IsScript}
use bc_concurrency.Pool.Safety.{IsFinished, finished_ran}
use bc_concurrency.Pool.Scripts.{all_assignments, dispatch_script}
use bc_concurrency.Pool.Rounds.{round_lem, owns_free}

length-take : {A : Type 0} (n : ℕ) (xs : List A) → length (take n xs) ≤ n
length-take zero xs = omega arith
length-take (suc n) [] = omega arith
length-take (suc n) (x ∷ xs) = omega (arith, length-take n xs)

module _ {A : Type 0} where
  -- What a dispatch hands to worker `j`, and what it leaves to the main thread.
  pub dispatch_given : ℕ → List A → ℕ → List A
  dispatch_given n tasks j =
      if n == 0 || leb (length tasks) 1
      then []
      else assigned (get_elem? (take n (all_assignments n tasks)) j)

  pub dispatch_mine : ℕ → List A → List A
  dispatch_mine n tasks =
      if n == 0 || leb (length tasks) 1
      then tasks
      else assigned (get_elem? (all_assignments n tasks) n)

  empty_of_length : (xs : List A) → length xs ≡ 0 → xs ≡ []
  empty_of_length [] e = refl
  empty_of_length (x ∷ xs) e = absurd (omega arith)

  pub dispatch_lem :
      (j n : ℕ) (tasks : List A) (rest : List (Command A))
      → (balanced j free (dispatch_script n tasks ++ rest) ≡ balanced j free rest)
        × (in_range n (dispatch_script n tasks ++ rest) ≡ in_range n rest)
        × (tasks_for j (dispatch_script n tasks ++ rest)
            ≡ dispatch_given n tasks j ++ tasks_for j rest)
        × (own_tasks (dispatch_script n tasks ++ rest) ≡ dispatch_mine n tasks ++ own_tasks rest)
  unfolding dispatch_script dispatch_given dispatch_mine
  dispatch_lem j n tasks rest = ground (
    arith,
    round_lem j n (take n (all_assignments n tasks))
        (assigned (get_elem? (all_assignments n tasks) n)) rest
        (length-take n (all_assignments n tasks)),
    owns_free j n tasks rest,
    empty_of_length tasks,
  )

  -- The lists of workers `k` to `k + n - 1`, one after the other.
  unfoldable pub gather : ℕ → ℕ → (ℕ → List A) → List A
  gather zero k f = []
  gather (suc n) k f = f k ++ gather n (k + 1) f

  pub gather-concat :
      (n k : ℕ) (f : ℕ → List A) (ws : List (List A))
      → length ws ≤ n
      → ((i : ℕ) → f (k + i) ≡ assigned (get_elem? ws i))
      → gather n k f ≡ concat ws
  unfolding gather concat
  gather-concat zero k f [] h e = refl
  gather-concat zero k f (w ∷ ws) h e = absurd (omega arith)
  gather-concat (suc n) k f [] h e = ap₂ ◌++◌ (ap f {y = k + 0} (omega arith) ∙ e 0) (
      gather-concat n (k + 1) f [] (omega arith)
        (λ i. ap f {y = k + suc i} (omega arith) ∙ e (suc i)))
  gather-concat (suc n) k f (w ∷ ws) h e = ap₂ ◌++◌ (ap f {y = k + 0} (omega arith) ∙ e 0) (
      gather-concat n (k + 1) f ws (omega arith)
        (λ i. ap f {y = k + suc i} (omega arith) ∙ e (suc i)))

  gather-nil : (n k : ℕ) (f : ℕ → List A) → ((i : ℕ) → f i ≡ []) → gather n k f ≡ []
  unfolding concat
  gather-nil n k f e = gather-concat n k f [] (omega arith) (λ i. e (k + i))

  pub gather-eq : (n k : ℕ) (f g : ℕ → List A) → ((i : ℕ) → f i ≡ g i) → gather n k f ≡ gather n k g
  unfolding gather
  gather-eq zero k f g e = refl
  gather-eq (suc n) k f g e = ap₂ ◌++◌ (e k) (gather-eq n (k + 1) f g e)

  dispatch_shares :
      (n : ℕ) (tasks : List A)
      → length tasks < 2 ^ 64
      → n + 1 < 2 ^ 64
      → gather n 0 (dispatch_given n tasks) ++ dispatch_mine n tasks ≡ tasks
  unfolding dispatch_given dispatch_mine before
  dispatch_shares n tasks small words = elim (Bool-cases (n == 0 || leb (length tasks) 1)) [
    | inl alone ↦ ap₂ ◌++◌ (gather-nil n 0 (dispatch_given n tasks) (λ i. rw alone)) (rw alone)
    | inr shared ↦
        ap₂ ◌++◌
          (gather-concat n 0 (dispatch_given n tasks) (take n all) (length-take n all)
            (λ i. rw shared (ap (λ j. assigned (get_elem? (take n all) j)) (omega arith))))
          (rw shared)
        ∙ concat-last n all (length-assignments tasks (u64 (n + 1)) (u64 (n + 1)) 0 0 ∙ whole)
        ∙ concat-assignments tasks (u64 (n + 1)) small (omega arith) (u64 (n + 1)) 0 0 (omega arith)
            refl
  ]
    where
      all : List (List A)
      all = all_assignments n tasks

      whole : u64 (n + 1) ≡ suc n
      whole = omega arith

  pub dispatch-IsScript : (n : ℕ) (tasks : List A) → IsScript n (dispatch_script n tasks)
  unfolding balanced in_range
  dispatch-IsScript n tasks = record {
    turns = λ j.
        ap (balanced j free) (sym (append-nil (dispatch_script n tasks)))
        ∙ (dispatch_lem j n tasks []).0;
    named =
        ap (in_range n) (sym (append-nil (dispatch_script n tasks)))
        ∙ (dispatch_lem 0 n tasks []).1;
  }

  -- For fewer than 2 ^ 64 tasks and fewer than 2 ^ 64 - 1 workers: whatever the interleaving, when the
  -- main thread has returned from a dispatch, the tasks that the workers have run, worker after worker,
  -- followed by those that it has run itself, are the staged tasks in the order of their submission.
  pub dispatch_run :
      (n : ℕ) (tasks : List A) {s : Pool A}
      → length tasks < 2 ^ 64
      → n + 1 < 2 ^ 64
      → Reach n (start_pool (dispatch_script n tasks)) s
      → IsFinished s
      → gather n 0 (λ i. (s.link i).ran) ++ s.main_ran ≡ tasks
  unfolding tasks_for own_tasks
  dispatch_run n tasks {s} small words r f =
      let (workers, mine) = finished_ran (dispatch-IsScript n tasks) r f in
      ap₂ ◌++◌
        (gather-eq n 0 (λ i. (s.link i).ran) (dispatch_given n tasks)
          (λ i.
            workers i
            ∙ ap (tasks_for i) (sym (append-nil (dispatch_script n tasks)))
            ∙ (dispatch_lem i n tasks []).2
            ∙ append-nil (dispatch_given n tasks i)))
        (mine
          ∙ ap own_tasks (sym (append-nil (dispatch_script n tasks)))
          ∙ (dispatch_lem 0 n tasks []).3
          ∙ append-nil (dispatch_mine n tasks))
      ∙ dispatch_shares n tasks small words
