-- ===== src/Session/Runs.antt =====
-- Every call of a session returns and keeps the session sound.
use bc_concurrency.Base.{
  ℕ, zero, suc, ◌+◌, ◌^◌, ◌<◌, ◌≤◌, ◌≡◌, inl, inr, refl, ap, ◌∙◌, Bool, Bool-cases, Option,
  Option-cases, length-append, some, List, [], ◌∷◌, length, arith,
}
use bc_concurrency.Allocator.{Allocator, IsAllocator}
use bc_concurrency.ParallelFor.{parallel_for}
use bc_concurrency.ParallelFor.Equivalence.{parallel_for_memory}
use bc_concurrency.Dispatch.{dispatch_and_wait}
use bc_concurrency.Dispatch.Exact.{dispatch_total}
use bc_concurrency.Dispatch.Submission.{Entry, submit, submit_batch, tasks_for, batch_cases}
use bc_concurrency.Session.{
  Staging, IsStaging, Action, register, stage, stage_batch, dispatch, loop, Session, staging_array,
  array_of, stage_of, dispatched_to, perform, perform_all, submitted, staging_array-IsVector,
}
use bc_concurrency.Session.Memory.{submit-Stored, submit_batch-Stored}
use bc_concurrency.Session.Soundness.{
  Sound, register-Sound, stored-Sound, loop-Sound, dispatched-Sound,
}

module _ (a : Allocator) (g : Staging a) (laws : IsAllocator a) (staging_laws : IsStaging a g)
    {F X : Type 0} (before : ℕ → Bool) (n : ℕ) (small : n + 1 < 2 ^ 64) where
  length-tasks_for :
      (f : F) (x : ℕ → X) (k i : ℕ) → length (tasks_for (staging_array a g) f x k i) ≡ k
  unfolding tasks_for
  length-tasks_for f x zero i = refl
  length-tasks_for f x (suc k) i = ap suc (length-tasks_for f x k (i + 1))

  submit-length :
      (f : F) (x : X) (r : a.Heap × ℕ × List (Entry F X))
      → length (submit (staging_array a g) f x r).0.2 ≤ length r.2 + 1
  unfolding submit
  submit-length f x r =
      let task : Entry F X = record { task_function = f; task_argument = x } in
      elim (Bool-cases (g.push r.0 r.1 (length r.2)).2) [
        | inl ok ↦ rw ok (omega (arith, length-append r.2 (task ∷ [])))
        | inr failed ↦ rw failed (omega arith)
      ]

  batch-length :
      (f : F) (x : ℕ → X) (count : ℕ) (r : a.Heap × ℕ × List (Entry F X))
      → length (submit_batch (staging_array a g) f x count r).0.2 ≤ length r.2 + count
  batch-length f x count r =
      elim (batch_cases (staging_array a g) (staging_array-IsVector a g) f x count r) [
        | inl (all, some_, e) ↦ omega (
          arith,
          ap length e,
          length-append r.2 (tasks_for (staging_array a g) f x count 0),
          length-tasks_for f x count 0,
        )
        | inr (failed, k, less, e) ↦ omega (
          arith,
          ap length e,
          less,
          length-append r.2 (tasks_for (staging_array a g) f x k 0),
          length-tasks_for f x k 0,
        )
      ]

  abbrev pub Goes : ℕ → Option (Session a F X) → Type 0
  Goes room o =
      (s : Session a F X) × (o ≡ some s) × Sound a g laws staging_laws before n small room s

  pub perform-Goes :
      (spawned : Bool) (fuel size : ℕ) (x : Action F X) (xs : List (Action F X)) (s : Session a F X)
      → 64 ≤ fuel
      → Sound a g laws staging_laws before n small (submitted (x ∷ xs)) s
      → Goes (submitted xs) (perform a g spawned fuel size x s)
  unfolding perform submitted
  perform-Goes spawned fuel size (register config) xs s f v =
      (_, refl, register-Sound a g laws staging_laws before n small size (submitted xs) config s v)
  perform-Goes spawned fuel size (stage fn x) xs s f v = (
    _,
    refl,
    stored-Sound a g laws staging_laws before n small (submitted (stage fn x ∷ xs)) (submitted xs) s
        (submit (staging_array a g) fn x (array_of a g s)).0 v
        (submit-Stored a g staging_laws before s.context fn x (array_of a g s) v.blocks)
        (omega (arith, submit-length fn x (array_of a g s))),
  )
  perform-Goes spawned fuel size (stage_batch fn x count) xs s f v = (
    _,
    refl,
    stored-Sound a g laws staging_laws before n small (submitted (stage_batch fn x count ∷ xs))
        (submitted xs) s (submit_batch (staging_array a g) fn x count (array_of a g s)).0 v
        (submit_batch-Stored a g staging_laws before s.context fn x count (array_of a g s) v.blocks)
        (omega (arith, batch-length fn x count (array_of a g s))),
  )
  perform-Goes spawned fuel size dispatch xs s f v =
      elim (Option-cases
        (dispatch_and_wait a fuel spawned s.machine.heap s.context.thread_count (stage_of a g s))) [
          | inl stuck ↦ absurd (
              dispatch_total a fuel spawned s.machine.heap s.context.thread_count (stage_of a g s) f
                v.capacity (omega (arith, v.few)) stuck)
          | inr ((h', t, r), e) ↦ (
            _,
            ap (dispatched_to a g s) e,
            dispatched-Sound a g laws staging_laws before n small fuel (submitted xs) spawned s v e,
          )
        ]
  perform-Goes spawned fuel size (loop start end step) xs s f v = (
    _,
    refl,
    loop-Sound a g laws staging_laws before n small (submitted xs) s
        (parallel_for a spawned s.machine.heap s.context.thread_count start end step).0 v
        (λ q.
          parallel_for_memory a laws spawned s.machine.heap s.context.thread_count start end step
            q),
  )

  pub perform_all-Goes :
      (spawned : Bool) (fuel size : ℕ) (xs : List (Action F X)) (s : Session a F X)
      → 64 ≤ fuel
      → Sound a g laws staging_laws before n small (submitted xs) s
      → Goes 0 (perform_all a g spawned fuel size xs s)
  unfolding perform_all submitted
  perform_all-Goes spawned fuel size [] s f v = (s, refl, v)
  perform_all-Goes spawned fuel size (x ∷ xs) s f v =
      let (s', e, v') = perform-Goes spawned fuel size x xs s f v in
      let (s'', e', v'') = perform_all-Goes spawned fuel size xs s' f v' in
      let next : perform_all a g spawned fuel size (x ∷ xs) s
          ≡ perform_all a g spawned fuel size xs s' =
        ground (arith, e) in
      (s'', next ∙ e', v'')
