-- ===== src/Session/Tasks.antt =====
-- What a session does with the tasks that are submitted to it.
use mathlib.Core.List.{append-nil, append_assoc}
use bc_concurrency.Base.{
  ℕ, ◌+◌, ◌^◌, ◌<◌, ◌≤◌, ◌≡◌, ◌⊎◌, inl, inr, refl, sym, ap, ◌∙◌, Bool, true, false, Bool-cases,
  Option, none, some, List, [], ◌∷◌, ◌++◌, length, arith,
}
use bc_concurrency.Allocator.{Allocator, IsAllocator}
use bc_concurrency.Context.{Sizes, Context, Services, Machine, create}
use bc_concurrency.Context.Placement.{Plan}
use bc_concurrency.Context.Creation.{vectors}
use bc_concurrency.ParallelFor.{has_looped, parallel_for}
use bc_concurrency.Context.Slots.{register_slot}
use bc_concurrency.Dispatch.{Stage, Round, refused, ran, dispatch_and_wait}
use bc_concurrency.Dispatch.Exact.{tasks_run, dispatch_exact}
use bc_concurrency.Dispatch.Submission.{Entry, submit, submit_batch, tasks_for, batch_cases}
use bc_concurrency.Session.{
  Staging, IsStaging, Action, register, stage, stage_batch, dispatch, loop, Session, staging_array,
  staging_array-IsVector, array_of, stage_of, dispatched_to, perform, perform_all, submitted,
}
use bc_concurrency.Session.Restores.{opened, opened-Sound}
use bc_concurrency.Session.Soundness.{Sound}
use bc_concurrency.Session.Runs.{perform-Goes, perform_all-Goes}

-- What a call returns: whether it is true.
abbrev filled_index : Option ℕ → Bool
filled_index none = false
filled_index (some index) = true

module _ (a : Allocator) (g : Staging a) {F X : Type 0} where
  abbrev one_task : F → X → List (Entry F X)
  one_task f x = record { task_function = f; task_argument = x } ∷ []

  abbrev has_run : Option (a.Heap × Stage (Entry F X) × Round (Entry F X)) → Bool
  has_run none = false
  has_run (some (h, t, refused)) = false
  has_run (some (h, t, ran main workers)) = true

  unfoldable pub answer : Bool → ℕ → ℕ → Action F X → Session a F X → Bool
  answer spawned fuel size (register config) s =
      filled_index (register_slot a size config s.context s.machine).2
  answer spawned fuel size (stage f x) s = (submit (staging_array a g) f x (array_of a g s)).1
  answer spawned fuel size (stage_batch f xs count) s =
      (submit_batch (staging_array a g) f xs count (array_of a g s)).1
  answer spawned fuel size dispatch s =
      has_run
        (dispatch_and_wait a fuel spawned s.machine.heap s.context.thread_count (stage_of a g s))
  answer spawned fuel size (loop start end step) s =
      has_looped (parallel_for a spawned s.machine.heap s.context.thread_count start end step).1

  -- The answers of the calls, in their order, up to the first that does not return.
  unfoldable pub answers : Bool → ℕ → ℕ → List (Action F X) → Session a F X → List Bool
  answers spawned fuel size [] s = []
  answers spawned fuel size (x ∷ xs) s =
      answer spawned fuel size x s ∷ elim (perform a g spawned fuel size x s) [
        | none ↦ []
        | some s' ↦ answers spawned fuel size xs s'
      ]

  -- The tasks that a call is to accept by its answer: a submission that returns true its task, a batch that
  -- returns true all of its tasks; a submission that returns false none, a batch that returns false the
  -- tasks before the one that it fails at.
  unfoldable pub Accepts : Action F X → Bool → List (Entry F X) → Type 0
  Accepts (register config) ok l = l ≡ []
  Accepts (stage f x) true l = l ≡ one_task f x
  Accepts (stage f x) false l = l ≡ []
  Accepts (stage_batch f x n) true l = (0 < n) × (l ≡ tasks_for (staging_array a g) f x n 0)
  Accepts (stage_batch f x n) false l =
      (k : ℕ) × ((k < n) ⊎ ((k ≡ 0) × (n ≡ 0))) × (l ≡ tasks_for (staging_array a g) f x k 0)
  Accepts dispatch ok l = l ≡ []
  Accepts (loop start end step) ok l = l ≡ []

  -- Those of all calls with their answers, one after the other.
  unfoldable pub Accepted : List (Action F X) → List Bool → List (Entry F X) → Type 0
  Accepted [] [] l = l ≡ []
  Accepted [] (ok ∷ oks) l = ⊥
  Accepted (x ∷ xs) [] l = ⊥
  Accepted (x ∷ xs) (ok ∷ oks) l =
      (new : List (Entry F X)) × (rest : List (Entry F X)) × Accepts x ok new
      × Accepted xs oks rest
      × (l ≡ new ++ rest)

  -- The tasks that have run, and those that are staged.
  abbrev pub all_tasks : Session a F X → List (Entry F X)
  all_tasks s = s.completed ++ s.staged

  abbrev tasks_in : Option (Session a F X) → List (Entry F X)
  tasks_in none = []
  tasks_in (some s) = all_tasks s

  abbrev Adds : Action F X → Bool → Session a F X → Session a F X → Type 0
  Adds x ok s s' = (new : List (Entry F X)) × Accepts x ok new × (all_tasks s' ≡ all_tasks s ++ new)

  submit-cases :
      (f : F) (x : X) (r : a.Heap × ℕ × List (Entry F X))
      → (new : List (Entry F X)) × Accepts (stage f x) (submit (staging_array a g) f x r).1 new
        × ((submit (staging_array a g) f x r).0.2 ≡ r.2 ++ new)
  unfolding submit Accepts
  submit-cases f x r = elim (Bool-cases (g.push r.0 r.1 (length r.2)).2) [
    | inl ok ↦ rw ok (one_task f x, refl, refl)
    | inr failed ↦ rw failed ([], refl, sym (append-nil r.2))
  ]

  batch-Accepts :
      (f : F) (x : ℕ → X) (n : ℕ) (r : a.Heap × ℕ × List (Entry F X))
      → (new : List (Entry F X)) × Accepts
          (stage_batch f x n)
          (submit_batch (staging_array a g) f x n r).1
          new
        × ((submit_batch (staging_array a g) f x n r).0.2 ≡ r.2 ++ new)
  unfolding Accepts
  batch-Accepts f x n r =
      elim (batch_cases (staging_array a g) (staging_array-IsVector a g) f x n r) [
        | inl (all, given, grown) ↦
            (tasks_for (staging_array a g) f x n 0, rw all (given, refl), grown)
        | inr (failed, k, less, grown) ↦
            (tasks_for (staging_array a g) f x k 0, rw failed (k, less, refl), grown)
      ]

  perform-Adds :
      (spawned : Bool) (fuel size : ℕ) (x : Action F X) (s : Session a F X) {s' : Session a F X}
      → length s.staged < 2 ^ 64
      → s.context.thread_count + 1 < 2 ^ 64
      → perform a g spawned fuel size x s ≡ some s'
      → Adds x (answer spawned fuel size x s) s s'
  unfolding perform answer Accepts tasks_run
  perform-Adds spawned fuel size (register config) s few small e =
      ([], refl, sym (ap tasks_in e) ∙ sym (append-nil (all_tasks s)))
  perform-Adds spawned fuel size (stage f x) s few small e =
      let (new, accepted, grown) = submit-cases f x (array_of a g s) in
      (
        new,
        accepted,
        sym (ap tasks_in e)
            ∙ ap (λ l. s.completed ++ l) grown
            ∙ sym (append_assoc s.completed s.staged new),
      )
  perform-Adds spawned fuel size (stage_batch f x n) s few small e =
      let (new, accepted, grown) = batch-Accepts f x n (array_of a g s) in
      (
        new,
        accepted,
        sym (ap tasks_in e)
            ∙ ap (λ l. s.completed ++ l) grown
            ∙ sym (append_assoc s.completed s.staged new),
      )
  perform-Adds spawned fuel size dispatch s {s'} few small e = (
    [],
    refl,
    go (dispatch_and_wait a fuel spawned s.machine.heap s.context.thread_count (stage_of a g s))
        refl e,
  )
    where
      go :
          (o : Option (a.Heap × Stage (Entry F X) × Round (Entry F X)))
          → dispatch_and_wait a fuel spawned s.machine.heap s.context.thread_count (stage_of a g s)
            ≡ o
          → dispatched_to a g s o ≡ some s'
          → all_tasks s' ≡ all_tasks s ++ []
      go none q e = cc
      go (some (h, t, r)) q e =
          sym (ap tasks_in e)
          ∙ elim (dispatch_exact a fuel spawned s.machine.heap s.context.thread_count
              (stage_of a g s) few small q) [
                | inl (done, run, empty) ↦
                    ap (λ l. (s.completed ++ tasks_run r) ++ l) empty
                    ∙ ap (λ l. (s.completed ++ l) ++ []) run
                | inr (ended, same) ↦
                    ap (λ u. (s.completed ++ tasks_run u) ++ t.staging) ended
                    ∙ ap (λ u. (s.completed ++ []) ++ u.staging) same
                    ∙ ap (λ l. l ++ s.staged) (append-nil s.completed)
                    ∙ sym (append-nil (all_tasks s))
              ]
  perform-Adds spawned fuel size (loop start end step) s few small e =
      ([], refl, sym (ap tasks_in e) ∙ sym (append-nil (all_tasks s)))

  module _ (laws : IsAllocator a) (staging_laws : IsStaging a g) (before : ℕ → Bool) (n : ℕ)
      (small : n + 1 < 2 ^ 64) where
    perform_all-tasks :
        (spawned : Bool) (fuel size : ℕ) (xs : List (Action F X)) (s : Session a F X)
        {s' : Session a F X}
        → 64 ≤ fuel
        → Sound a g laws staging_laws before n small (submitted xs) s
        → perform_all a g spawned fuel size xs s ≡ some s'
        → (l : List (Entry F X)) × Accepted xs (answers spawned fuel size xs s) l
          × (all_tasks s' ≡ all_tasks s ++ l)
    unfolding perform_all answers Accepted
    perform_all-tasks spawned fuel size [] s f v e =
        ([], refl, sym (ap tasks_in e) ∙ sym (append-nil (all_tasks s)))
    perform_all-tasks spawned fuel size (x ∷ xs) s {s'} f v e =
        let (s₁, e₁, v₁) =
          perform-Goes a g laws staging_laws before n small spawned fuel size x xs s f v in
        let (new, accepts, grown) =
          perform-Adds spawned fuel size x s (omega (arith, v.few))
            (omega (arith, small, v.shape.threads)) e₁ in
        let next : perform_all a g spawned fuel size xs s₁ ≡ some s' = ground (arith, e₁) in
        let (rest, accepted, e₂) = perform_all-tasks spawned fuel size xs s₁ f v₁ next in
        (
          new ++ rest,
          rw e₁ (new, rest, accepts, accepted, refl),
          e₂ ∙ ap (λ l. l ++ rest) grown ∙ append_assoc (all_tasks s) new rest,
        )

module _ (a : Allocator) (e : Services a) (z : Sizes) (g : Staging a) {F X : Type 0}
    (laws : IsAllocator a) (vector_laws : IsAllocator (vectors a e))
    (staging_laws : IsStaging a g) where
  -- Under the conditions of `session_restores`, every call of the session returns, and the tasks that its
  -- dispatches have run, in the order in which each dispatch runs the workers' shares and then
  -- the main thread's, followed by the tasks that are staged at the end, are in the order of their
  -- submission: the task of each submission that has returned true, all tasks of each batch that has
  -- returned true, and of each batch that has returned false those before some place; none
  -- of a submission that has returned false.
  pub session_order :
      (spawned : Bool) (fuel size : ℕ) (plan : Plan) (m : Machine a) (xs : List (Action F X))
      (c : Context)
      → 64 ≤ fuel
      → ((i : ℕ) → (m.memories i ≡ false) × (m.locks i ≡ false))
      → plan.thread_count + 1 < 2 ^ 64
      → submitted xs ≤ 2 ^ 59
      → (create a e z plan m).1 ≡ some c
      → (s : Session a F X) × (l : List (Entry F X)) × (perform_all a g spawned fuel size xs
            (opened F X (create a e z plan m).0 c)
          ≡ some s)
        × Accepted a g xs
            (answers a g spawned fuel size xs (opened F X (create a e z plan m).0 c))
            l
        × (s.completed ++ s.staged ≡ l)
  session_order spawned fuel size plan m xs c f idle small few made =
      let start = opened F X (create a e z plan m).0 c in
      let v =
        opened-Sound a e z g laws vector_laws staging_laws plan m (submitted xs) idle small few
          made in
      let (s, run, v') =
        perform_all-Goes a g laws staging_laws (a.live m.heap) plan.thread_count small spawned fuel
          size xs start f v in
      let (l, accepted, all) =
        perform_all-tasks a g laws staging_laws (a.live m.heap) plan.thread_count small spawned fuel
          size xs start f v run in
      (s, l, run, accepted, all)
