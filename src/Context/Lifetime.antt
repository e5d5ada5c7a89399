-- ===== src/Context/Lifetime.antt =====
-- What bc_concurrency_destroy gives back after bc_concurrency_create.
use bc_concurrency.Base.{
  ℕ, zero, suc, ◌+◌, ◌^◌, ◌<◌, ◌≡◌, ◌⊎◌, refl, sym, ap, ap₂, ◌∙◌, Bool, false, ◌&&◌, Option, none,
  some, inl, inr, List, [], ◌∷◌, ◌++◌, arith, update, leb, ltb, if◌then◌else◌,
}
use bc_concurrency.Base.Words.{u64}
use bc_concurrency.Allocator.{Allocator, IsAllocator}
use mathlib.Core.Path.{subst}
use bc_concurrency.Context.{
  Sizes, Context, Services, Machine, free, free_some, create, destroy_slots, destroy_workers,
  destroy,
}
use bc_concurrency.Context.Placement.{Plan}
use bc_concurrency.Context.Owned.{Held, Held-front, Held-free}
use bc_concurrency.Context.Creation.{
  vectors, block_of, below_threads, owned, Outcome, create-Outcome, free_some-same,
}

module _ (a : Allocator) (e : Services a) (z : Sizes) (laws : IsAllocator a)
    (vector_laws : IsAllocator (vectors a e)) (before : ℕ → Bool) where
  abbrev Holds : Machine a → List ℕ → Type 0
  Holds m ps = Held before (a.live m.heap) ps

  unslotted :
      (j : ℕ) (c : Context) (m : Machine a)
      → c.slot_count ≡ 0
      → ((k : ℕ) → c.slots k ≡ none)
      → free_some a e z (c.slots j) (destroy_slots a e z c.slot_count c j m) ≡ m
  unfolding free_some destroy_slots
  unslotted j c m none_ empty =
      ap₂ (λ o k. free_some a e z o (destroy_slots a e z k c j m)) (empty j) none_

  -- bc_concurrency_destroy without slots changes the heap only by its frees, and leaves no worker.
  destroy_workers_lem :
      (n j : ℕ) (c : Context) (m : Machine a) (i : ℕ)
      → c.slot_count ≡ 0
      → ((k : ℕ) → c.slots k ≡ none)
      → ((destroy_workers a e z n j c m).heap ≡ m.heap)
        × ((destroy_workers a e z n j c m).memories i
            ≡ (if leb j i && ltb i (j + n) then false else m.memories i))
        × ((destroy_workers a e z n j c m).locks i
            ≡ (if leb j i && ltb i (j + n) then false else m.locks i))
        × ((destroy_workers a e z n j c m).destroyed ≡ m.destroyed)
  unfolding destroy_workers
  destroy_workers_lem zero j c m i none_ empty = (refl, ground arith, ground arith, refl)
  destroy_workers_lem (suc n) j c m i none_ empty =
      let next = λ (k : Machine a).
        destroy_workers a e z n (j + 1) c
          (record k { locks = update k.locks j false; memories = update k.memories j false }) in
      let ih =
        destroy_workers_lem n (j + 1) c
          (record m { locks = update m.locks j false; memories = update m.memories j false }) i
          none_ empty in
      let same = unslotted j c m none_ empty in
      (
        ap (λ k. (next k).heap) same ∙ ih.0,
        ap (λ k. (next k).memories i) same ∙ ih.1 ∙ ground arith,
        ap (λ k. (next k).locks i) same ∙ ih.2 ∙ ground arith,
        ap (λ k. (next k).destroyed) same ∙ ih.3,
      )

  take_out :
      (ps : List ℕ) (p : ℕ) (qs : List ℕ) (m : Machine a)
      → Holds m (ps ++ p ∷ qs)
      → Holds (free a e z p m) (ps ++ qs)
  take_out ps p qs m v =
      Held-free a laws before m.heap p (ps ++ qs) (Held-front before (a.live m.heap) ps p qs v)

  take_staging :
      (ps : List ℕ) (p : ℕ) (qs : List ℕ) (m : Machine a)
      → Holds m (ps ++ p ∷ qs)
      → Holds (record m { heap = e.release m.heap p }) (ps ++ qs)
  take_staging ps p qs m v =
      Held-free (vectors a e) vector_laws before m.heap p (ps ++ qs)
        (Held-front before (a.live m.heap) ps p qs v)

  free_none : (m : Machine a) → free_some a e z none m ≡ m
  unfolding free_some
  free_none m = refl

  -- The frees of bc_concurrency_destroy, in their order.
  blocks-Holds :
      (c : Context) (threads : Option ℕ) (m : Machine a)
      → Holds m (c.workers ∷ (block_of threads ++ below_threads c))
      → Holds
          (free a e z c.context (
            free a e z c.workers (
              free_some a e z threads (
                free a e z c.dispatch_work
                  (free a e z c.dispatch_tasks (record m { heap = e.release m.heap c.staging }))))))
          []
  unfolding free_some
  blocks-Holds c none m v =
      let m₁ = record m { heap = e.release m.heap c.staging } in
      let m₂ = free a e z c.dispatch_tasks m₁ in
      let m₃ = free a e z c.dispatch_work m₂ in
      let last = c.context ∷ [] in
      let v₁ =
        take_staging (c.workers ∷ c.dispatch_work ∷ c.dispatch_tasks ∷ []) c.staging last m v in
      let v₂ = take_out (c.workers ∷ c.dispatch_work ∷ []) c.dispatch_tasks last m₁ v₁ in
      let v₃ = take_out (c.workers ∷ []) c.dispatch_work last m₂ v₂ in
      take_out [] c.context [] (free a e z c.workers m₃) (take_out [] c.workers last m₃ v₃)
  blocks-Holds c (some p) m v =
      let m₁ = record m { heap = e.release m.heap c.staging } in
      let m₂ = free a e z c.dispatch_tasks m₁ in
      let m₃ = free a e z c.dispatch_work m₂ in
      let m₄ = free a e z p m₃ in
      let last = c.context ∷ [] in
      let v₁ =
        take_staging (c.workers ∷ p ∷ c.dispatch_work ∷ c.dispatch_tasks ∷ []) c.staging last m v in
      let v₂ = take_out (c.workers ∷ p ∷ c.dispatch_work ∷ []) c.dispatch_tasks last m₁ v₁ in
      let v₃ = take_out (c.workers ∷ p ∷ []) c.dispatch_work last m₂ v₂ in
      let v₄ = take_out (c.workers ∷ []) p last m₃ v₃ in
      take_out [] c.context [] (free a e z c.workers m₄) (take_out [] c.workers last m₄ v₄)

  -- Freeing the blocks of a context that has no slots.
  destroy-Holds :
      (c : Context) (m : Machine a)
      → c.slot_count ≡ 0
      → c.slot_configs ≡ none
      → ((k : ℕ) → c.slots k ≡ none)
      → Holds m (owned c)
      → Holds (destroy a e z c m) []
        × ((destroy a e z c m).memories
            ≡ (destroy_workers a e z (u64 (c.thread_count + 1)) 0 c m).memories)
        × ((destroy a e z c m).locks
            ≡ (destroy_workers a e z (u64 (c.thread_count + 1)) 0 c m).locks)
  unfolding destroy
  destroy-Holds c m none_ configs empty v =
      let swept = destroy_workers a e z (u64 (c.thread_count + 1)) 0 c m in
      let cleared = free_some a e z c.slot_configs swept in
      let released = record cleared { heap = e.release cleared.heap c.staging } in
      let threadless = free a e z c.dispatch_work (free a e z c.dispatch_tasks released) in
      let bare = ap (λ o. free_some a e z o swept) configs ∙ free_none swept in
      let heap =
        ap (λ k. k.heap) bare
        ∙ (destroy_workers_lem (u64 (c.thread_count + 1)) 0 c m 0 none_ empty).0 in
      (
        blocks-Holds c c.threads cleared
            (subst (λ h. Held before (a.live h) (owned c)) (sym heap) v),
        (free_some-same a e z laws vector_laws before c.threads threadless).0
            ∙ ap (λ k. k.memories) bare,
        (free_some-same a e z laws vector_laws before c.threads threadless).1
            ∙ ap (λ k. k.locks) bare,
      )

  -- Whatever the pool allocator, the staging vector and the memory contexts answer: a call of
  -- bc_concurrency_create that fails leaves the blocks of the heap as they were and no memory context;
  -- one that succeeds has set up every worker and the main thread, and where there are fewer than
  -- 2 ^ 64 - 1 workers, bc_concurrency_destroy gives back all blocks, memory contexts and locks.
  pub create_cases :
      (plan : Plan) (m : Machine a)
      → ((i : ℕ) → (m.memories i ≡ false) × (m.locks i ≡ false))
      → a.live m.heap ≡ before
      → plan.thread_count + 1 < 2 ^ 64
      → (((create a e z plan m).1 ≡ none)
          × (a.live (create a e z plan m).0.heap ≡ before)
          × ((i : ℕ) → (create a e z plan m).0.memories i ≡ false))
        ⊎ ((c : Context) × ((create a e z plan m).1 ≡ some c)
            × (a.live (destroy a e z c (create a e z plan m).0).heap ≡ before)
            × ((i : ℕ)
                → ((create a e z plan m).0.memories i ≡ leb i plan.thread_count)
                  × ((create a e z plan m).0.locks i ≡ leb i plan.thread_count)
                  × ((destroy a e z c (create a e z plan m).0).memories i ≡ false)
                  × ((destroy a e z c (create a e z plan m).0).locks i ≡ false)))
  unfolding Held
  create_cases plan m f v small =
      go (create a e z plan m) (create-Outcome a e z laws vector_laws before plan m f v)
    where
      go :
          (r : Machine a × Option Context)
          → Outcome a e z laws vector_laws before plan.thread_count r
          → ((r.1 ≡ none) × (a.live r.0.heap ≡ before) × ((i : ℕ) → r.0.memories i ≡ false))
            ⊎ ((c : Context) × (r.1 ≡ some c)
                × (a.live (destroy a e z c r.0).heap ≡ before)
                × ((i : ℕ)
                    → (r.0.memories i ≡ leb i plan.thread_count)
                      × (r.0.locks i ≡ leb i plan.thread_count)
                      × ((destroy a e z c r.0).memories i ≡ false)
                      × ((destroy a e z c r.0).locks i ≡ false)))
      go (m', none) o = inl (refl, o.0, o.1)
      go (m', some c) (blocks, workers, count, no_slots, configs, empty_slots) =
          let empty = λ (i : ℕ). (workers i).2 in
          let (h, memories, locks) = destroy-Holds c m' no_slots configs empty blocks in
          let swept =
            λ (i : ℕ). destroy_workers_lem (u64 (c.thread_count + 1)) 0 c m' i no_slots empty in
          inr (
            c,
            refl,
            h,
            λ i. (
              (workers i).0,
              (workers i).1,
              ap (λ g. g i) memories ∙ (swept i).1 ∙ ground (arith, (workers i).0),
              ap (λ g. g i) locks ∙ (swept i).2 ∙ ground (arith, (workers i).1),
            ),
          )
