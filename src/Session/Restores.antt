-- ===== src/Session/Restores.antt =====
-- A session leaves the heap as it was before bc_concurrency_create.
use bc_concurrency.Base.{ℕ, ◌+◌, ◌^◌, ◌<◌, ◌≤◌, ◌≡◌, refl, ◌∙◌, Bool, false, some, List, [], arith}
use bc_concurrency.Allocator.{Allocator, IsAllocator}
use bc_concurrency.Context.{Sizes, Context, Services, Machine, create, destroy}
use bc_concurrency.Context.Placement.{Plan}
use bc_concurrency.Context.Capacity.{create-capacity}
use bc_concurrency.Context.Creation.{vectors}
use bc_concurrency.Context.Pointers.{create-Owned}
use bc_concurrency.Context.Destruction.{destroy-restores}
use bc_concurrency.Context.Callbacks.{destroy_rest}
use bc_concurrency.Session.{Staging, IsStaging, Action, Session, perform_all, submitted}
use bc_concurrency.Session.Memory.{}
use bc_concurrency.Session.Soundness.{Sound}
use bc_concurrency.Session.Runs.{perform_all-Goes}

-- A session that starts with a new context.
abbrev pub opened : {a : Allocator} → (F X : Type 0) → Machine a → Context → Session a F X
opened F X m c = record { machine = m; context = c; staged = []; completed = [] }

module _ (a : Allocator) (e : Services a) (z : Sizes) (g : Staging a) {F X : Type 0}
    (laws : IsAllocator a) (vector_laws : IsAllocator (vectors a e))
    (staging_laws : IsStaging a g) where
  pub opened-Sound :
      (plan : Plan) (m : Machine a) (room : ℕ) {c : Context}
      → ((i : ℕ) → (m.memories i ≡ false) × (m.locks i ≡ false))
      → (small : plan.thread_count + 1 < 2 ^ 64) → room ≤ 2 ^ 59
      → (create a e z plan m).1 ≡ some c
      → Sound a g laws staging_laws {F = F} {X = X}
          (a.live m.heap)
          plan.thread_count
          small
          room
          (opened F X (create a e z plan m).0 c)
  opened-Sound plan m room idle small few made =
      let (owned, shape, count, states) =
        create-Owned a e z laws vector_laws (a.live m.heap) plan m idle refl made in
      record {
        blocks = owned;
        shape = shape;
        capacity = omega (arith, create-capacity a e z plan m made);
        few = omega (arith, few);
        states = states;
      }

  -- Take a context that bc_concurrency_create returns for fewer than 2 ^ 64 - 1 workers, from a machine
  -- without memory contexts and locks, and any sequence of registrations of slots, submissions, dispatches
  -- and parallel loops on it, which submit at most 2 ^ 59 tasks, with 64 rounds of fuel or more. Whatever
  -- the allocator and the staging array answer, and whether the workers can be spawned in all calls or
  -- in none, every call returns, and after bc_concurrency_destroy the blocks of the heap are those from before bc_concurrency_create,
  -- and every memory context and lock is destroyed.
  pub session_restores :
      (spawned : Bool) (fuel size : ℕ) (plan : Plan) (m : Machine a) (xs : List (Action F X))
      (c : Context)
      → 64 ≤ fuel
      → ((i : ℕ) → (m.memories i ≡ false) × (m.locks i ≡ false))
      → plan.thread_count + 1 < 2 ^ 64
      → submitted xs ≤ 2 ^ 59
      → (create a e z plan m).1 ≡ some c
      → (s : Session a F X) × (perform_all a g spawned fuel size xs
            (opened F X (create a e z plan m).0 c)
          ≡ some s)
        × (a.live (destroy a e z s.context s.machine).heap ≡ a.live m.heap)
        × ((i : ℕ)
            → ((destroy a e z s.context s.machine).memories i ≡ false)
              × ((destroy a e z s.context s.machine).locks i ≡ false))
  session_restores spawned fuel size plan m xs c f idle small few made =
      let n = plan.thread_count in
      let before = a.live m.heap in
      let (s, run, v) =
        perform_all-Goes a g laws staging_laws before n small spawned fuel size xs
          (opened F X (create a e z plan m).0 c) f
          (opened-Sound plan m (submitted xs) idle small few made) in
      (
        s,
        run,
        destroy-restores a e z laws vector_laws before n s.context s.machine small v.shape v.blocks,
        λ i.
            let (memory, lock, called) =
              destroy_rest a e z n s.context s.machine 0 i small v.shape.threads in
            (memory ∙ ground (arith, v.states i), lock ∙ ground (arith, v.states i)),
      )
