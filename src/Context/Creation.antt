-- ===== src/Context/Creation.antt =====
-- What bc_concurrency_create leaves behind, on success and on every failure.
use bc_concurrency.Base.{
  ℕ, zero, suc, ◌+◌, ◌*◌, ◌≤◌, ◌≡◌, refl, sym, ap, ◌∙◌, Bool, true, false, ◌&&◌, Option, none, some,
  List, [], ◌∷◌, ◌++◌, arith, update, leb, ltb, if◌then◌else◌,
}
use bc_concurrency.Base.Words.{u64}
use bc_concurrency.Allocator.{Allocator, IsAllocator}
use mathlib.Core.Path.{subst}
use bc_concurrency.ParallelFor.{entry_bytes}
use bc_concurrency.Context.{
  Sizes, Context, blank_context, Services, Machine, free, free_some, fail_context, fail_staging,
  fail_dispatch_tasks, fail_threads, drop_workers, fail_workers, init_workers, after_init,
  got_workers, allocate_workers, got_threads, got_dispatch_work, got_dispatch_tasks, got_staging,
  got_context, create, staging_initial_capacity,
}
use bc_concurrency.Context.Placement.{Plan}
use bc_concurrency.Context.Owned.{Held, Held-allocate, Held-none, Held-free}

-- The storage of staging vectors, seen as an allocator over the same heap.
abbrev pub vectors : (a : Allocator) → Services a → Allocator
vectors a e = record { Heap = a.Heap; live = a.live; allocate = e.reserve; free = e.release }

abbrev pub block_of : Option ℕ → List ℕ
block_of none = []
block_of (some p) = p ∷ []

-- The pool blocks of a context that has no slots.
abbrev pub below_threads : Context → List ℕ
below_threads c = c.dispatch_work ∷ c.dispatch_tasks ∷ c.staging ∷ c.context ∷ []

abbrev pub owned : Context → List ℕ
owned c = c.workers ∷ (block_of c.threads ++ below_threads c)

module _ (a : Allocator) (e : Services a) (z : Sizes) (laws : IsAllocator a)
    (vector_laws : IsAllocator (vectors a e)) (before : ℕ → Bool) where
  abbrev Holds : Machine a → List ℕ → Type 0
  Holds m ps = Held before (a.live m.heap) ps

  abbrev Taken : (ℕ → Bool) → List ℕ → Option ℕ → Type 0
  Taken live ps none = Held before live ps
  Taken live ps (some p) = Held before live (p ∷ ps)

  allocated :
      (b : Allocator) (l : IsAllocator b) (h : b.Heap) (n : ℕ) (ps : List ℕ) (block : Option ℕ)
      → (b.allocate h n).1 ≡ block
      → Held before (b.live h) ps
      → Taken (b.live (b.allocate h n).0) ps block
  allocated b l h n ps none q v = Held-none b l before h n ps q v
  allocated b l h n ps (some p) q v = Held-allocate b l before h n p ps q v

  free_some-Held :
      (o : Option ℕ) (m : Machine a) (ps : List ℕ)
      → Holds m (block_of o ++ ps)
      → Holds (free_some a e z o m) ps
  unfolding free_some
  free_some-Held none m ps v = v
  free_some-Held (some p) m ps v = Held-free a laws before m.heap p ps v

  pub free_some-same :
      (o : Option ℕ) (m : Machine a)
      → ((free_some a e z o m).memories ≡ m.memories) × ((free_some a e z o m).locks ≡ m.locks)
  unfolding free_some
  free_some-same none m = (refl, refl)
  free_some-same (some p) m = (refl, refl)

  fail_context_lem :
      (c : Context) (m : Machine a) → Holds m (c.context ∷ []) → Holds (fail_context a e z c m) []
  unfolding fail_context
  fail_context_lem c m v = Held-free a laws before m.heap c.context [] v

  fail_staging_lem :
      (c : Context) (m : Machine a)
      → Holds m (c.staging ∷ c.context ∷ [])
      → Holds (fail_staging a e z c m) []
  unfolding fail_staging
  fail_staging_lem c m v =
      fail_context_lem c _
        (Held-free (vectors a e) vector_laws before m.heap c.staging (c.context ∷ []) v)

  fail_dispatch_tasks_lem :
      (c : Context) (m : Machine a)
      → Holds m (c.dispatch_tasks ∷ c.staging ∷ c.context ∷ [])
      → Holds (fail_dispatch_tasks a e z c m) []
  unfolding fail_dispatch_tasks
  fail_dispatch_tasks_lem c m v =
      fail_staging_lem c _
        (Held-free a laws before m.heap c.dispatch_tasks (c.staging ∷ c.context ∷ []) v)

  fail_threads_lem :
      (c : Context) (m : Machine a)
      → Holds m (block_of c.threads ++ below_threads c)
      → Holds (fail_threads a e z c m) [] × ((fail_threads a e z c m).memories ≡ m.memories)
  unfolding fail_threads fail_dispatch_tasks fail_staging fail_context
  fail_threads_lem c m v = (
    fail_dispatch_tasks_lem c (free a e z c.dispatch_work (free_some a e z c.threads m)) (
        Held-free a laws before _ c.dispatch_work (c.dispatch_tasks ∷ c.staging ∷ c.context ∷ [])
          (free_some-Held c.threads m (below_threads c) v)),
    (free_some-same c.threads m).0,
  )

  drop_workers_lem :
      (n j : ℕ) (m : Machine a) (i : ℕ)
      → ((drop_workers a e z n j m).heap ≡ m.heap)
        × ((drop_workers a e z n j m).memories i
            ≡ (if leb j i && ltb i (j + n) then false else m.memories i))
  unfolding drop_workers
  drop_workers_lem zero j m i = (refl, ground arith)
  drop_workers_lem (suc n) j m i =
      let ih =
        drop_workers_lem n (j + 1)
          (record m { memories = update m.memories j false; locks = update m.locks j false }) i in
      (ih.0, ground (arith, ih.1))

  init_workers_lem :
      (n j : ℕ) (m : Machine a) (i : ℕ)
      → ((init_workers a e z n j m).0.heap ≡ m.heap)
        × ((init_workers a e z n j m).1 ≡ none
            → ((init_workers a e z n j m).0.memories i
                ≡ (if leb j i && ltb i (j + n) then true else m.memories i))
              × ((init_workers a e z n j m).0.locks i
                  ≡ (if leb j i && ltb i (j + n) then true else m.locks i)))
        × ((k : ℕ)
            → (init_workers a e z n j m).1 ≡ some k
            → (j ≤ k)
              × ((init_workers a e z n j m).0.memories i
                  ≡ (if leb j i && ltb i k then true else m.memories i)))
  unfolding init_workers
  init_workers_lem zero j m i = (refl, λ q. (ground arith, ground arith), λ k q. cc)
  init_workers_lem (suc n) j m i =
      let ih =
        init_workers_lem n (j + 1)
          (record m { locks = update m.locks j true; memories = update m.memories j true }) i in
      (
        ground (arith, ih.0),
        λ q. (ground (arith, ih.1), ground (arith, ih.1)),
        λ k q. (ground (arith, ih.2 k), ground (arith, ih.2 k)),
      )

  -- The context has no slots yet, and no worker is set up.
  abbrev Fresh : Context → Machine a → Type 0
  Fresh c m =
      (c.slot_count ≡ 0)
      × (c.slot_configs ≡ none)
      × ((i : ℕ) → c.slots i ≡ none)
      × ((i : ℕ) → m.memories i ≡ false)
      × ((i : ℕ) → m.locks i ≡ false)
      × ((i s : ℕ) → c.slot i s ≡ none)

  -- What a return of the function leaves: nothing, or a context over `n` workers and the main thread.
  abbrev pub Outcome : ℕ → Machine a × Option Context → Type 0
  Outcome n (m, none) = Holds m [] × ((i : ℕ) → m.memories i ≡ false)
  Outcome n (m, some c) =
      Holds m (owned c)
      × ((i : ℕ) → (m.memories i ≡ leb i n) × (m.locks i ≡ leb i n) × (c.slots i ≡ none))
      × (c.thread_count ≡ n)
      × (c.slot_count ≡ 0)
      × (c.slot_configs ≡ none)
      × ((i s : ℕ) → c.slot i s ≡ none)

  after_init-Outcome :
      (c : Context) (m : Machine a) (r : Machine a × Option ℕ)
      → init_workers a e z (suc c.thread_count) 0 m ≡ r
      → Fresh c m
      → Holds m (owned c)
      → Outcome c.thread_count (after_init a e z c r)
  unfolding after_init fail_workers
  after_init-Outcome c m (m', none) q (count, configs, slots, memories, locks, slot) v =
      let lem = λ (i : ℕ). init_workers_lem (suc c.thread_count) 0 m i in
      (
        subst (λ h. Held before (a.live h) (owned c)) (sym (lem 0).0 ∙ ap (λ r. r.0.heap) q) v,
        λ i. (
          ground (arith, ((lem i).1 (ap (λ r. r.1) q)).0, memories i, ap (λ r. r.0.memories i) q),
          ground (arith, ((lem i).1 (ap (λ r. r.1) q)).1, locks i, ap (λ r. r.0.locks i) q),
          slots i,
        ),
        refl,
        count,
        configs,
        slot,
      )
  after_init-Outcome c m (m', some k) q (count, configs, slots, memories, locks, slot) v =
      let dropped = λ (i : ℕ). drop_workers_lem k 0 m' i in
      let set_up = λ (i : ℕ). init_workers_lem (suc c.thread_count) 0 m i in
      let same = sym (set_up 0).0 ∙ ap (λ r. r.0.heap) q ∙ sym (dropped 0).0 in
      let freed = free a e z c.workers (drop_workers a e z k 0 m') in
      let (h, kept) = fail_threads_lem c freed (
        Held-free a laws before (drop_workers a e z k 0 m').heap c.workers
          (block_of c.threads ++ below_threads c)
          (subst (λ h. Held before (a.live h) (owned c)) same v)) in
      (
        h,
        λ i.
            ap (λ g. g i) kept
            ∙ ground (
              arith,
              (dropped i).1,
              (set_up i).2 k (ap (λ r. r.1) q),
              memories i,
              ap (λ r. r.0.memories i) q,
            ),
      )

  got_workers-Outcome :
      (c : Context) (m : Machine a) (block : Option ℕ)
      → Fresh c m
      → Taken (a.live m.heap) (block_of c.threads ++ below_threads c) block
      → Outcome c.thread_count (got_workers a e z c m block)
  unfolding got_workers
  got_workers-Outcome c m none f v =
      let (h, same) = fail_threads_lem c m v in (h, λ i. ap (λ g. g i) same ∙ f.3 i)
  got_workers-Outcome c m (some p) f v =
      after_init-Outcome (record c { workers = p }) m (init_workers a e z (suc c.thread_count) 0 m)
        refl f v

  allocate_workers-Outcome :
      (c : Context) (m : Machine a)
      → Fresh c m
      → Holds m (block_of c.threads ++ below_threads c)
      → Outcome c.thread_count (allocate_workers a e z c m)
  allocate_workers-Outcome c m f v =
      let size = u64 (u64 (c.thread_count + 1) * z.worker_size) in
      got_workers-Outcome c (record m { heap = (a.allocate m.heap size).0 })
        (a.allocate m.heap size).1 f
        (allocated a laws m.heap size (block_of c.threads ++ below_threads c) _ refl v)

  got_threads-Outcome :
      (c : Context) (m : Machine a) (block : Option ℕ)
      → c.threads ≡ none
      → Fresh c m
      → Taken (a.live m.heap) (below_threads c) block
      → Outcome c.thread_count (got_threads a e z c m block)
  unfolding got_threads
  got_threads-Outcome c m none q f v =
      let (h, same) =
        fail_threads_lem c m (subst (λ o. Holds m (block_of o ++ below_threads c)) (sym q) v) in
      (h, λ i. ap (λ g. g i) same ∙ f.3 i)
  got_threads-Outcome c m (some p) q f v =
      allocate_workers-Outcome (record c { threads = some p }) m f v

  either :
      (n : ℕ) (b : Bool) (x y : Machine a × Option Context)
      → Outcome n x
      → Outcome n y
      → Outcome n (if b then x else y)
  either n true x y v w = v
  either n false x y v w = w

  got_dispatch_work-Outcome :
      (c : Context) (m : Machine a) (block : Option ℕ)
      → c.threads ≡ none
      → Fresh c m
      → Taken (a.live m.heap) (c.dispatch_tasks ∷ c.staging ∷ c.context ∷ []) block
      → Outcome c.thread_count (got_dispatch_work a e z c m block)
  unfolding got_dispatch_work fail_dispatch_tasks fail_staging fail_context
  got_dispatch_work-Outcome c m none q f v = (fail_dispatch_tasks_lem c m v, f.3)
  got_dispatch_work-Outcome c m (some p) q f v =
      either c.thread_count (ltb 0 c.thread_count) _ _
        (got_threads-Outcome (record c { dispatch_work = p })
          (record m { heap = (a.allocate m.heap size).0 }) (a.allocate m.heap size).1 q f
          (allocated a laws m.heap size (below_threads (record c { dispatch_work = p })) _ refl v))
        (allocate_workers-Outcome (record c { dispatch_work = p; threads = none }) m f v)
    where
      size : ℕ
      size = u64 (c.thread_count * z.thread_size)

  got_dispatch_tasks-Outcome :
      (c : Context) (m : Machine a) (block : Option ℕ)
      → c.threads ≡ none
      → Fresh c m
      → Taken (a.live m.heap) (c.staging ∷ c.context ∷ []) block
      → Outcome c.thread_count (got_dispatch_tasks a e z c m block)
  unfolding got_dispatch_tasks fail_staging fail_context
  got_dispatch_tasks-Outcome c m none q f v = (fail_staging_lem c m v, f.3)
  got_dispatch_tasks-Outcome c m (some p) q f v =
      let size = u64 (u64 (c.thread_count + 1) * z.work_size) in
      got_dispatch_work-Outcome
        (record c { dispatch_tasks = p; dispatch_capacity = staging_initial_capacity })
        (record m { heap = (a.allocate m.heap size).0 }) (a.allocate m.heap size).1 q f
        (allocated a laws m.heap size (p ∷ c.staging ∷ c.context ∷ []) _ refl v)

  got_staging-Outcome :
      (c : Context) (m : Machine a) (block : Option ℕ)
      → c.threads ≡ none
      → Fresh c m
      → Taken (a.live m.heap) (c.context ∷ []) block
      → Outcome c.thread_count (got_staging a e z c m block)
  unfolding got_staging fail_context
  got_staging-Outcome c m none q f v = (fail_context_lem c m v, f.3)
  got_staging-Outcome c m (some p) q f v =
      let size = staging_initial_capacity * entry_bytes in
      got_dispatch_tasks-Outcome (record c { staging = p })
        (record m { heap = (a.allocate m.heap size).0 }) (a.allocate m.heap size).1 q f
        (allocated a laws m.heap size (p ∷ c.context ∷ []) _ refl v)

  got_context-Outcome :
      (plan : Plan) (m : Machine a) (block : Option ℕ)
      → ((i : ℕ) → (m.memories i ≡ false) × (m.locks i ≡ false))
      → Taken (a.live m.heap) [] block
      → Outcome plan.thread_count (got_context a e z plan m block)
  unfolding got_context
  got_context-Outcome plan m none f v = (v, λ i. (f i).0)
  got_context-Outcome plan m (some p) f v =
      got_staging-Outcome (blank_context plan p)
        (record m { heap = (e.reserve m.heap staging_initial_capacity).0 })
        (e.reserve m.heap staging_initial_capacity).1 refl
        (refl, refl, λ i. refl, λ i. (f i).0, λ i. (f i).1, λ i s. refl)
        (allocated (vectors a e) vector_laws m.heap staging_initial_capacity (p ∷ []) _ refl v)

  pub create-Outcome :
      (plan : Plan) (m : Machine a)
      → ((i : ℕ) → (m.memories i ≡ false) × (m.locks i ≡ false))
      → Holds m []
      → Outcome plan.thread_count (create a e z plan m)
  unfolding create
  create-Outcome plan m f v =
      got_context-Outcome plan (record m { heap = (a.allocate m.heap z.context_size).0 })
        (a.allocate m.heap z.context_size).1 f (allocated a laws m.heap z.context_size [] _ refl v)
