-- ===== src/Context/Capacity.antt =====
-- The capacity of the dispatch array of a new context.
use bc_concurrency.Base.{ℕ, ◌≡◌, Bool, true, false, if◌then◌else◌, ltb, Option, none, some, arith}
use bc_concurrency.Allocator.{Allocator}
use bc_concurrency.Context.{
  Sizes, Context, Services, Machine, staging_initial_capacity, create, got_context, got_staging,
  got_dispatch_tasks, got_dispatch_work, got_threads, got_workers, after_init,
}
use bc_concurrency.Context.Placement.{Plan}

either :
    {M : Type 0} {c : Context} (b : Bool) (x y : M × Option Context) (k : ℕ)
    → (if b then x else y).1 ≡ some c
    → (x.1 ≡ some c → c.dispatch_capacity ≡ k)
    → (y.1 ≡ some c → c.dispatch_capacity ≡ k)
    → c.dispatch_capacity ≡ k
either true x y k q f g = f q
either false x y k q f g = g q

module _ (a : Allocator) (e : Services a) (z : Sizes) where
  after_init-capacity :
      (d : Context) (r : Machine a × Option ℕ) {c : Context}
      → (after_init a e z d r).1 ≡ some c
      → c.dispatch_capacity ≡ d.dispatch_capacity
  unfolding after_init
  after_init-capacity d (m, none) q = ground arith
  after_init-capacity d (m, some k) q = cc

  got_workers-capacity :
      (d : Context) (m : Machine a) (block : Option ℕ) {c : Context}
      → (got_workers a e z d m block).1 ≡ some c
      → c.dispatch_capacity ≡ d.dispatch_capacity
  unfolding got_workers
  got_workers-capacity d m none q = cc
  got_workers-capacity d m (some p) q = after_init-capacity _ _ q

  got_threads-capacity :
      (d : Context) (m : Machine a) (block : Option ℕ) {c : Context}
      → (got_threads a e z d m block).1 ≡ some c
      → c.dispatch_capacity ≡ d.dispatch_capacity
  unfolding got_threads
  got_threads-capacity d m none q = cc
  got_threads-capacity d m (some p) q = got_workers-capacity _ _ _ q

  got_dispatch_work-capacity :
      (d : Context) (m : Machine a) (block : Option ℕ) {c : Context}
      → (got_dispatch_work a e z d m block).1 ≡ some c
      → c.dispatch_capacity ≡ d.dispatch_capacity
  unfolding got_dispatch_work
  got_dispatch_work-capacity d m none q = cc
  got_dispatch_work-capacity d m (some p) {c} q =
      either {c = c} (ltb 0 d.thread_count) _ _ d.dispatch_capacity q
        (λ q'. got_threads-capacity _ _ _ q') (λ q'. got_workers-capacity _ _ _ q')

  got_dispatch_tasks-capacity :
      (d : Context) (m : Machine a) (block : Option ℕ) {c : Context}
      → (got_dispatch_tasks a e z d m block).1 ≡ some c
      → c.dispatch_capacity ≡ staging_initial_capacity
  unfolding got_dispatch_tasks
  got_dispatch_tasks-capacity d m none q = cc
  got_dispatch_tasks-capacity d m (some p) q = got_dispatch_work-capacity _ _ _ q

  got_staging-capacity :
      (d : Context) (m : Machine a) (block : Option ℕ) {c : Context}
      → (got_staging a e z d m block).1 ≡ some c
      → c.dispatch_capacity ≡ staging_initial_capacity
  unfolding got_staging
  got_staging-capacity d m none q = cc
  got_staging-capacity d m (some p) q = got_dispatch_tasks-capacity _ _ _ q

  got_context-capacity :
      (plan : Plan) (m : Machine a) (block : Option ℕ) {c : Context}
      → (got_context a e z plan m block).1 ≡ some c
      → c.dispatch_capacity ≡ staging_initial_capacity
  unfolding got_context
  got_context-capacity plan m none q = cc
  got_context-capacity plan m (some p) q = got_staging-capacity _ _ _ q

  pub create-capacity :
      (plan : Plan) (m : Machine a) {c : Context}
      → (create a e z plan m).1 ≡ some c
      → c.dispatch_capacity ≡ staging_initial_capacity
  unfolding create
  create-capacity plan m q = got_context-capacity plan _ _ q
