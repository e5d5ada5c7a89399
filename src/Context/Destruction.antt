-- ===== src/Context/Destruction.antt =====
-- What bc_concurrency_destroy frees, for a context with any slots.
use bc_concurrency.Base.{
  ℕ, zero, suc, ◌+◌, ◌^◌, ◌<◌, ◌≤◌, ◌≡◌, refl, false, Bool, ◌&&◌, Option, none, some, arith, update,
  ltb, leb, ◌==◌, if◌then◌else◌,
}
use bc_concurrency.Base.Words.{u64}
use bc_concurrency.Allocator.{Allocator, IsAllocator}
use bc_concurrency.Context.{
  Sizes, Context, Services, Machine, free, free_some, destroy_slot, destroy_slots, destroy_workers,
  destroy,
}
use bc_concurrency.Context.Creation.{vectors}
use bc_concurrency.Context.Ownership.{
  Key, field, array, slot, scratch, key_eq_sound, put, Owned, Owned-ext, Owned-free, Owned-none,
}
use bc_concurrency.Context.Pointers.{pointers, IsSlotted}

abbrev without : (Key → Bool) → (Key → Option ℕ) → Key → Option ℕ
without p f t = if p t then none else f t

-- The slots below `n` of worker `i`.
abbrev slots_below : ℕ → ℕ → Key → Bool
slots_below i n (slot j s) = j == i && ltb s n
slots_below i n _ = false

-- The array and the slots of the workers `i` to `i + n - 1`.
abbrev of_workers : ℕ → ℕ → ℕ → Key → Bool
of_workers i n count (array j) = leb i j && ltb j (i + n)
of_workers i n count (slot j s) = leb i j && ltb j (i + n) && ltb s count
of_workers i n count _ = false

module _ (a : Allocator) (e : Services a) (z : Sizes) (laws : IsAllocator a)
    (vector_laws : IsAllocator (vectors a e)) (before : ℕ → Bool) where
  abbrev Holds : Machine a → (Key → Option ℕ) → Type 0
  Holds m f = Owned before (a.live m.heap) f

  put-none : (f : Key → Option ℕ) (t : Key) → f t ≡ none → (u : Key) → f u ≡ put f t none u
  put-none f t q u = ground (arith, key_eq_sound t u)

  free_some-Owned :
      (o : Option ℕ) (m : Machine a) (f : Key → Option ℕ) (t : Key)
      → f t ≡ o
      → Holds m f
      → Holds (free_some a e z o m) (put f t none)
  unfolding free_some
  free_some-Owned none m f t q v = Owned-ext (put f t none) v (put-none f t q)
  free_some-Owned (some p) m f t q v = Owned-free a laws before m.heap p f t v q

  destroy_slot-Owned :
      (c : Context) (i s : ℕ) (o : Option ℕ) (m : Machine a) (f : Key → Option ℕ)
      → f (slot i s) ≡ o
      → Holds m f
      → Holds (destroy_slot a e z c i s o m) (put f (slot i s) none)
  unfolding destroy_slot
  destroy_slot-Owned c i s none m f q v =
      Owned-ext (put f (slot i s) none) v (put-none f (slot i s) q)
  destroy_slot-Owned c i s (some p) m f q v = Owned-free a laws before m.heap p f (slot i s) v q

  destroy_slots-Owned :
      (n : ℕ) (c : Context) (i : ℕ) (m : Machine a) (f : Key → Option ℕ)
      → ((s : ℕ) → s < n → f (slot i s) ≡ c.slot i s)
      → Holds m f
      → Holds (destroy_slots a e z n c i m) (without (slots_below i n) f)
  unfolding destroy_slots
  destroy_slots-Owned zero c i m f h v = Owned-ext (without (slots_below i 0) f) v (λ t. same t)
    where
      same : (t : Key) → f t ≡ without (slots_below i 0) f t
      same (slot j s) = ground arith
      same t = refl
  destroy_slots-Owned (suc n) c i m f h v =
      Owned-ext {f = without (slots_below i n) (put f (slot i n) none)}
        (without (slots_below i (suc n)) f)
        (destroy_slots-Owned n c i (destroy_slot a e z c i n (c.slot i n) m) (put f (slot i n) none)
          (λ s lt. ground (arith, h s))
          (destroy_slot-Owned c i n (c.slot i n) m f (h n (omega arith)) v))
        (λ t. same t)
    where
      same :
          (t : Key)
          → without (slots_below i n) (put f (slot i n) none) t
            ≡ without (slots_below i (suc n)) f t
      same (slot j s) = ground arith
      same (field k) = refl
      same (array j) = refl
      same scratch = refl

  destroy_workers-Owned :
      (n i : ℕ) (c : Context) (m : Machine a) (f : Key → Option ℕ)
      → ((j : ℕ) → i ≤ j → j < i + n → f (array j) ≡ c.slots j)
      → ((j s : ℕ) → i ≤ j → j < i + n → s < c.slot_count → f (slot j s) ≡ c.slot j s)
      → Holds m f
      → Holds (destroy_workers a e z n i c m) (without (of_workers i n c.slot_count) f)
  unfolding destroy_workers
  destroy_workers-Owned zero i c m f arrays slots v =
      Owned-ext (without (of_workers i 0 c.slot_count) f) v (λ t. same t)
    where
      same : (t : Key) → f t ≡ without (of_workers i 0 c.slot_count) f t
      same (slot j s) = ground arith
      same (array j) = ground arith
      same t = refl
  destroy_workers-Owned (suc n) i c m f arrays slots v =
      Owned-ext {f = without (of_workers (i + 1) n c.slot_count) g}
        (without (of_workers i (suc n) c.slot_count) f)
        (destroy_workers-Owned n (i + 1) c next g (λ j lo hi. ground (arith, arrays j))
          (λ j s lo hi lt. ground (arith, slots j s)) swept)
        (λ t. same t)
    where
      g : Key → Option ℕ
      g = put (without (slots_below i c.slot_count) f) (array i) none

      freed : Machine a
      freed = free_some a e z (c.slots i) (destroy_slots a e z c.slot_count c i m)

      next : Machine a
      next = record freed {
        locks = update freed.locks i false;
        memories = update freed.memories i false;
      }

      swept : Holds next g
      swept =
          free_some-Owned (c.slots i) (destroy_slots a e z c.slot_count c i m)
            (without (slots_below i c.slot_count) f) (array i)
            (arrays i (omega arith) (omega arith))
            (destroy_slots-Owned c.slot_count c i m f (λ s. slots i s (omega arith) (omega arith))
              v)

      same :
          (t : Key)
          → without (of_workers (i + 1) n c.slot_count) g t
            ≡ without (of_workers i (suc n) c.slot_count) f t
      same (slot j s) = ground arith
      same (array j) = ground arith
      same (field k) = refl
      same scratch = refl

  -- The frees at the end of bc_concurrency_destroy, in their order.
  abbrev last_frees : (Key → Option ℕ) → Key → Option ℕ
  last_frees f =
      put
        (put
          (put (put (put (put (put f (field 6) none) (field 1) none) (field 2) none) (field 3) none)
            (field 4) none)
          (field 5) none)
        (field 0) none

  -- No block that the context points to is left.
  pub destroy-restores :
      (n : ℕ) (c : Context) (m : Machine a)
      → n + 1 < 2 ^ 64
      → IsSlotted n c
      → Holds m (pointers c)
      → a.live (destroy a e z c m).heap ≡ before
  unfolding destroy
  destroy-restores n c m small shape v = Owned-none {f = last_frees rest} at_end (λ t. empty t)
    where
      all : ℕ
      all = u64 (c.thread_count + 1)

      rest : Key → Option ℕ
      rest = without (of_workers 0 all c.slot_count) (pointers c)

      swept : Machine a
      swept = destroy_workers a e z all 0 c m

      m₁ : Machine a
      m₁ = free_some a e z c.slot_configs swept

      m₂ : Machine a
      m₂ = record m₁ { heap = e.release m₁.heap c.staging }

      m₃ : Machine a
      m₃ = free a e z c.dispatch_work (free a e z c.dispatch_tasks m₂)

      m₄ : Machine a
      m₄ = free_some a e z c.threads m₃

      v₁ : Holds m₁ (put rest (field 6) none)
      v₁ =
          free_some-Owned c.slot_configs swept rest (field 6) refl (
            destroy_workers-Owned all 0 c m (pointers c) (λ j lo hi. refl) (λ j s lo hi lt. refl) v)

      v₂ : Holds m₂ (put (put rest (field 6) none) (field 1) none)
      v₂ =
          Owned-free (vectors a e) vector_laws before m₁.heap c.staging (put rest (field 6) none)
            (field 1) v₁ refl

      f₃ : Key → Option ℕ
      f₃ = put (put (put (put rest (field 6) none) (field 1) none) (field 2) none) (field 3) none

      v₃ : Holds m₃ f₃
      v₃ =
          Owned-free a laws before (free a e z c.dispatch_tasks m₂).heap c.dispatch_work
            (put (put (put rest (field 6) none) (field 1) none) (field 2) none) (field 3)
            (Owned-free a laws before m₂.heap c.dispatch_tasks
              (put (put rest (field 6) none) (field 1) none) (field 2) v₂ refl)
            refl

      v₄ : Holds m₄ (put f₃ (field 4) none)
      v₄ = free_some-Owned c.threads m₃ f₃ (field 4) refl v₃

      at_end : Holds (free a e z c.context (free a e z c.workers m₄)) (last_frees rest)
      at_end =
          Owned-free a laws before (free a e z c.workers m₄).heap c.context
            (put (put f₃ (field 4) none) (field 5) none) (field 0)
            (Owned-free a laws before m₄.heap c.workers (put f₃ (field 4) none) (field 5) v₄ refl)
            refl

      empty : (t : Key) → last_frees rest t ≡ none
      empty (field k) = ground arith
      empty (array j) = ground (arith, shape.above j 0, shape.threads)
      empty (slot j s) = ground (arith, shape.above j s, shape.behind j s, shape.threads)
      empty scratch = refl
