-- ===== src/Dispatch/Submission.antt =====
-- src/context/bc_concurrency.c: bc_concurrency_submit and bc_concurrency_submit_batch, which stage the
-- tasks that the next bc_concurrency_dispatch_and_wait runs.
use mathlib.Core.List.{append-nil, append_assoc}
use bc_concurrency.Base.{
  ℕ, zero, suc, ◌+◌, ◌<◌, ◌≡◌, ◌∙◌, ◌⊎◌, inl, inr, ap, sym, refl, Bool, true, false, Bool-cases,
  List, [], ◌∷◌, ◌++◌, arith, ◌==◌, if◌then◌else◌,
}

-- `bc_concurrency_task_entry_t`, for functions `F` and arguments `X`.
pub record Entry (F X : Type 0) : Type 0 where
  pub task_function : F
  pub task_argument : X

-- The typed array of bc-core that holds the staged tasks: `State` is the heap and the array's storage,
-- `entries` its elements in order, and `push` is bc_concurrency_staging_push.
pub record Vector (A : Type 0) : Type 1 where
  pub State : Type 0
  pub entries : State → List A
  pub push : State → A → State × Bool

-- A push appends, or it fails and leaves the elements.
pub record IsVector {A : Type 0} (v : Vector A) : Type 0 where
  pub push_true :
      (s : v.State) (x : A)
      → (v.push s x).1 ≡ true
      → v.entries (v.push s x).0 ≡ v.entries s ++ x ∷ []
  pub push_false :
      (s : v.State) (x : A) → (v.push s x).1 ≡ false → v.entries (v.push s x).0 ≡ v.entries s

module _ {F X : Type 0} (v : Vector (Entry F X)) where
  unfoldable pub submit : F → X → v.State → v.State × Bool
  submit task_function task_argument s =
      v.push s (record { task_function = task_function; task_argument = task_argument })

  -- The rounds of bc_concurrency_submit_batch for the arguments `i` to `i + n - 1`.
  unfoldable pub submit_rounds : F → (ℕ → X) → ℕ → ℕ → v.State → v.State × Bool
  submit_rounds task_function task_arguments zero i s = (s, true)
  submit_rounds task_function task_arguments (suc n) i s =
      let (s', pushed) = submit task_function (task_arguments i) s in
      let rest = submit_rounds task_function task_arguments n (i + 1) s' in
      if pushed then rest else (s', false)

  unfoldable pub submit_batch : F → (ℕ → X) → ℕ → v.State → v.State × Bool
  submit_batch task_function task_arguments task_count s =
      if task_count == 0
      then (s, false)
      else submit_rounds task_function task_arguments task_count 0 s

  -- The tasks for the arguments `i` to `i + n - 1`.
  unfoldable pub tasks_for : F → (ℕ → X) → ℕ → ℕ → List (Entry F X)
  tasks_for f x zero i = []
  tasks_for f x (suc n) i =
      record { task_function = f; task_argument = x i } ∷ tasks_for f x n (i + 1)

  submit_rounds_cases :
      (laws : IsVector v) (f : F) (x : ℕ → X) (n i : ℕ) (s : v.State)
      → (((submit_rounds f x n i s).1 ≡ true)
          × (v.entries (submit_rounds f x n i s).0 ≡ v.entries s ++ tasks_for f x n i))
        ⊎ (((submit_rounds f x n i s).1 ≡ false)
            × (k : ℕ) × (k < n)
            × (v.entries (submit_rounds f x n i s).0 ≡ v.entries s ++ tasks_for f x k i))
  unfolding submit_rounds submit tasks_for
  submit_rounds_cases laws f x zero i s = inl (refl, sym (append-nil (v.entries s)))
  submit_rounds_cases laws f x (suc n) i s =
      let task : Entry F X = record { task_function = f; task_argument = x i } in
      let s' = (v.push s task).0 in
      elim (Bool-cases (v.push s task).1) [
        | inl ok ↦ rw ok (elim (submit_rounds_cases laws f x n (i + 1) s') [
          | inl (all, e) ↦ inl (all, e ∙ step task s (tasks_for f x n (i + 1)) ok)
          | inr (some_, k, lt, e) ↦
              inr (some_, suc k, omega arith, e ∙ step task s (tasks_for f x k (i + 1)) ok)
        ])
        | inr ended ↦ rw ended (
            inr
              (refl, 0, omega arith, laws.push_false s task ended ∙ sym (append-nil (v.entries s))))
      ]
    where
      step :
          (task : Entry F X) (s : v.State) (rest : List (Entry F X))
          → (v.push s task).1 ≡ true
          → v.entries (v.push s task).0 ++ rest ≡ v.entries s ++ task ∷ rest
      step task s rest ok =
          ap (λ l. l ++ rest) (laws.push_true s task ok)
          ∙ append_assoc (v.entries s) (task ∷ []) rest

  -- bc_concurrency_submit_batch either returns true, is given at least one argument, and has staged a task
  -- for each argument, in order and behind the tasks that were staged; or it returns false, and has
  -- staged tasks for the first `k` arguments in the same way, for some `k` less than their number, or
  -- none where there are no arguments.
  pub batch_cases :
      (laws : IsVector v) (f : F) (x : ℕ → X) (n : ℕ) (s : v.State)
      → (((submit_batch f x n s).1 ≡ true)
          × (0 < n)
          × (v.entries (submit_batch f x n s).0 ≡ v.entries s ++ tasks_for f x n 0))
        ⊎ (((submit_batch f x n s).1 ≡ false)
            × (k : ℕ) × ((k < n) ⊎ ((k ≡ 0) × (n ≡ 0)))
            × (v.entries (submit_batch f x n s).0 ≡ v.entries s ++ tasks_for f x k 0))
  unfolding submit_batch tasks_for
  batch_cases laws f x zero s = inr (refl, 0, inr (refl, refl), sym (append-nil (v.entries s)))
  batch_cases laws f x (suc n) s =
      let given : (suc n == 0) ≡ false = ground arith in
      rw given (elim (submit_rounds_cases laws f x (suc n) 0 s) [
        | inl (all, e) ↦ inl (all, omega arith, e)
        | inr (failed, k, lt, e) ↦ inr (failed, k, inl lt, e)
      ])
