-- ===== src/Context/Pointers.antt =====
-- The pointers of a context, and what bc_concurrency_create makes of them.
use mathlib.Core.Path.{subst, fun_ext}
use bc_concurrency.Base.{
  ℕ, ◌<◌, ◌≤◌, ◌≡◌, ◌≢◌, refl, sym, Bool, false, Option, none, some, List, [], ◌∷◌, ◌++◌, arith,
  update, leb, ◌==◌, if◌then◌else◌,
}
use bc_concurrency.Allocator.{Allocator, IsAllocator}
use bc_concurrency.Context.{Sizes, Context, Services, Machine, create}
use bc_concurrency.Context.Placement.{Plan}
use bc_concurrency.Context.Owned.{Held}
use bc_concurrency.Context.Creation.{vectors, block_of, below_threads, Outcome, create-Outcome}
use bc_concurrency.Context.Ownership.{
  Key, field, array, slot, scratch, put, Owned, Owned-ext, Owned-put, Owned-start,
}

some-inj : {x y : Context} → some x ≡ some y → x ≡ y
some-inj e = cc

-- The fields that point to a block of the pool.
abbrev pub fields : Context → ℕ → Option ℕ
fields c k =
    if k == 0
    then some c.context
    else if k == 1
    then some c.staging
    else if k == 2
    then some c.dispatch_tasks
    else if k == 3
    then some c.dispatch_work
    else if k == 4
    then c.threads
    else if k == 5
    then some c.workers
    else if k == 6
    then c.slot_configs
    else none

abbrev pub pointers : Context → Key → Option ℕ
pointers c (field k) = fields c k
pointers c (array i) = c.slots i
pointers c (slot i s) = c.slot i s
pointers c scratch = none

-- The slots of a context with `n` workers: the workers and the main thread have every slot that is
-- registered, and nothing else is a slot.
pub record IsSlotted (n : ℕ) (c : Context) : Type 0 where
  pub threads : c.thread_count ≡ n
  pub arrays : (j : ℕ) → j ≤ n → 0 < c.slot_count → c.slots j ≢ none
  pub there : (j s : ℕ) → j ≤ n → s < c.slot_count → c.slot j s ≢ none
  pub behind : (j s : ℕ) → c.slot_count ≤ s → c.slot j s ≡ none
  pub above : (j s : ℕ) → n < j → (c.slots j ≡ none) × (c.slot j s ≡ none)

Held-Owned :
    (before live : ℕ → Bool) (p : ℕ) (ps : List ℕ) (f : Key → Option ℕ) (t : Key)
    → Held before live (p ∷ ps)
    → Owned before (update live p false) f
    → f t ≡ none
    → Owned before live (put f t (some p))
unfolding Held
Held-Owned before live p ps f t h v empty =
    subst (λ l. Owned before l (put f t (some p))) (fun_ext (λ q. ground (arith, h.0)))
      (Owned-put t p v (ground arith) empty)

Held-none-Owned : (before live : ℕ → Bool) → Held before live [] → Owned before live (λ _. none)
unfolding Held
Held-none-Owned before live h = subst (λ l. Owned before l (λ _. none)) (sym h) (Owned-start before)

Held-tail :
    (before live : ℕ → Bool) (p : ℕ) (ps : List ℕ)
    → Held before live (p ∷ ps)
    → Held before (update live p false) ps
unfolding Held
Held-tail before live p ps h = h.1

-- Blocks under different keys, the newest first.
abbrev stacked : List (Key × ℕ) → Key → Option ℕ
stacked [] = λ _. none
stacked ((t, p) ∷ r) = put (stacked r) t (some p)

abbrev Differ : List (Key × ℕ) → Type 0
Differ [] = Unit {0}
Differ ((t, p) ∷ r) = (stacked r t ≡ none) × Differ r

abbrev addresses : List (Key × ℕ) → List ℕ
addresses [] = []
addresses ((t, p) ∷ r) = p ∷ addresses r

stacked-Owned :
    (before live : ℕ → Bool) (r : List (Key × ℕ))
    → Held before live (addresses r)
    → Differ r
    → Owned before live (stacked r)
stacked-Owned before live [] h d = Held-none-Owned before live h
stacked-Owned before live ((t, p) ∷ r) h d =
    Held-Owned before live p (addresses r) (stacked r) t h
      (stacked-Owned before (update live p false) r (Held-tail before live p (addresses r) h) d.1)
      d.0

abbrev below : Context → List (Key × ℕ)
below c =
    (field 3, c.dispatch_work)
    ∷ (field 2, c.dispatch_tasks)
    ∷ (field 1, c.staging)
    ∷ (field 0, c.context)
    ∷ []

abbrev threads_block : Option ℕ → List (Key × ℕ)
threads_block none = []
threads_block (some p) = (field 4, p) ∷ []

created-Owned :
    (before live : ℕ → Bool) (c : Context) (threads : Option ℕ)
    → Held before live (c.workers ∷ (block_of threads ++ below_threads c))
    → Owned before live (stacked ((field 5, c.workers) ∷ (threads_block threads ++ below c)))
created-Owned before live c none h =
    stacked-Owned before live ((field 5, c.workers) ∷ below c) h
      (refl, (refl, (refl, (refl, (refl, tt)))))
created-Owned before live c (some p) h =
    stacked-Owned before live ((field 5, c.workers) ∷ (field 4, p) ∷ below c) h
      (refl, (refl, (refl, (refl, (refl, (refl, tt))))))

created-pointers :
    (c : Context) (threads : Option ℕ) (t : Key)
    → c.threads ≡ threads
    → c.slot_configs ≡ none
    → ((i : ℕ) → c.slots i ≡ none)
    → ((i s : ℕ) → c.slot i s ≡ none)
    → stacked ((field 5, c.workers) ∷ (threads_block threads ++ below c)) t ≡ pointers c t
created-pointers c none (field k) e configs arrays slots = ground arith
created-pointers c none (array i) e configs arrays slots = sym (arrays i)
created-pointers c none (slot i s) e configs arrays slots = sym (slots i s)
created-pointers c none scratch e configs arrays slots = refl
created-pointers c (some p) (field k) e configs arrays slots = ground arith
created-pointers c (some p) (array i) e configs arrays slots = sym (arrays i)
created-pointers c (some p) (slot i s) e configs arrays slots = sym (slots i s)
created-pointers c (some p) scratch e configs arrays slots = refl

module _ (a : Allocator) (e : Services a) (z : Sizes) (laws : IsAllocator a)
    (vector_laws : IsAllocator (vectors a e)) (before : ℕ → Bool) where
  -- What a context that bc_concurrency_create returns stands for.
  pub create-Owned :
      (plan : Plan) (m : Machine a) {c : Context}
      → ((i : ℕ) → (m.memories i ≡ false) × (m.locks i ≡ false))
      → a.live m.heap ≡ before
      → (create a e z plan m).1 ≡ some c
      → Owned before (a.live (create a e z plan m).0.heap) (pointers c)
        × IsSlotted plan.thread_count c
        × (c.slot_count ≡ 0)
        × ((i : ℕ)
            → ((create a e z plan m).0.memories i ≡ leb i plan.thread_count)
              × ((create a e z plan m).0.locks i ≡ leb i plan.thread_count))
  unfolding Held
  create-Owned plan m {c} f v q =
      go (create a e z plan m) q (create-Outcome a e z laws vector_laws before plan m f v)
    where
      go :
          (r : Machine a × Option Context)
          → r.1 ≡ some c
          → Outcome a e z laws vector_laws before plan.thread_count r
          → Owned before (a.live r.0.heap) (pointers c)
            × IsSlotted plan.thread_count c
            × (c.slot_count ≡ 0)
            × ((i : ℕ)
                → (r.0.memories i ≡ leb i plan.thread_count)
                  × (r.0.locks i ≡ leb i plan.thread_count))
      go (m', none) q o = cc
      go (m', some d) q (blocks, workers, count, no_slots, configs, empty_slots) =
          subst
            (λ x.
              Owned before (a.live m'.heap) (pointers x)
              × IsSlotted plan.thread_count x
              × (x.slot_count ≡ 0)
              × ((i : ℕ)
                  → (m'.memories i ≡ leb i plan.thread_count)
                    × (m'.locks i ≡ leb i plan.thread_count)))
            (some-inj q)
            (
              Owned-ext (pointers d) (created-Owned before (a.live m'.heap) d d.threads blocks)
                  (λ t.
                    created-pointers d d.threads t refl configs (λ i. (workers i).2) empty_slots),
              record {
                threads = count;
                arrays = λ j le pos z. absurd (omega (arith, no_slots));
                there = λ j s le lt z. absurd (omega (arith, no_slots));
                behind = λ j s le. empty_slots j s;
                above = λ j s lt. ((workers j).2, empty_slots j s);
              },
              no_slots,
              λ i. ((workers i).0, (workers i).1),
            )
