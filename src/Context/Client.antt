-- ===== src/Context/Client.antt =====
-- A client's run over one context: bc_concurrency_create, any registrations of slots, and
-- bc_concurrency_destroy.
use bc_concurrency.Base.{
  ℕ, ◌+◌, ◌^◌, ◌<◌, ◌≤◌, ◌≡◌, ◌≢◌, ◌⊎◌, inl, inr, refl, sym, ap, ◌∙◌, Bool, true, false, ◌&&◌,
  Bool-cases, none, some, Option-cases, List, [], ◌∷◌, length, arith, ltb, leb, ◌==◌, if◌then◌else◌,
}
use bc_concurrency.Allocator.{Allocator, IsAllocator}
use bc_concurrency.Context.{Sizes, Context, Services, Machine, create, destroy}
use bc_concurrency.Context.Placement.{Plan}
use bc_concurrency.Context.Creation.{vectors}
use bc_concurrency.Context.Ownership.{slot, Owned}
use bc_concurrency.Context.Pointers.{pointers, IsSlotted, create-Owned}
use bc_concurrency.Context.Slots.{SlotConfig, register_slot}
use bc_concurrency.Context.Slots.Shape.{register_slot-IsSlotted}
use bc_concurrency.Context.Slots.Memory.{register_slot-Owned}
use bc_concurrency.Context.Slots.Inits.{Quiet, register_slot-inits}
use bc_concurrency.Context.Callbacks.{times, filled, destroy_rest}
use bc_concurrency.Context.Queries.{worker_slot}

slot-inj : {i s j t : ℕ} → slot i s ≡ slot j t → (i ≡ j) × (s ≡ t)
slot-inj e = (cc, cc)

-- The registrations, with whether all of them have succeeded.
unfoldable pub register_all :
    (a : Allocator) → ℕ → List SlotConfig → Context → Machine a → Machine a × Context × Bool
register_all a size [] c m = (m, c, true)
register_all a size (x ∷ xs) c m =
    let (m', c', index) = register_slot a size x c m in
    let (m'', c'', ok) = register_all a size xs c' m' in (m'', c'', filled index && ok)

module _ (a : Allocator) (size : ℕ) where
  register_all-kept :
      (n : ℕ) (xs : List SlotConfig) (c : Context) (m : Machine a)
      → n + 1 < 2 ^ 64
      → IsSlotted n c
      → IsSlotted n (register_all a size xs c m).1 × Quiet a size m (register_all a size xs c m).0
  unfolding register_all
  register_all-kept n [] c m small v = (v, (refl, refl, refl))
  register_all-kept n (x ∷ xs) c m small v =
      let m' = (register_slot a size x c m).0 in
      let c' = (register_slot a size x c m).1 in
      let shape = register_slot-IsSlotted a size n x c m small v in
      let quiet = (register_slot-inits a size x n c m 0 0 small v.threads).0 in
      let (shape', quiet') = register_all-kept n xs c' m' small shape in
      (shape', (quiet'.0 ∙ quiet.0, quiet'.1 ∙ quiet.1, quiet'.2 ∙ quiet.2))

  register_all-Owned :
      (laws : IsAllocator a) (before : ℕ → Bool) (n : ℕ) (xs : List SlotConfig) (c : Context)
      (m : Machine a)
      → n + 1 < 2 ^ 64
      → IsSlotted n c
      → Owned before (a.live m.heap) (pointers c)
      → Owned before
          (a.live (register_all a size xs c m).0.heap)
          (pointers (register_all a size xs c m).1)
  unfolding register_all
  register_all-Owned laws before n [] c m small v w = w
  register_all-Owned laws before n (x ∷ xs) c m small v w =
      register_all-Owned laws before n xs (register_slot a size x c m).1
        (register_slot a size x c m).0 small (register_slot-IsSlotted a size n x c m small v)
        (register_slot-Owned a size laws before n x c m small v w)

  -- Both callbacks are there.
  abbrev pub has_callbacks : List SlotConfig → Bool
  has_callbacks [] = true
  has_callbacks (x ∷ xs) = x.has_init && x.has_destroy && has_callbacks xs

  register_all-inits :
      (n : ℕ) (xs : List SlotConfig) (c : Context) (m : Machine a) (t j : ℕ)
      → n + 1 < 2 ^ 64
      → IsSlotted n c
      → has_callbacks xs ≡ true
      → (register_all a size xs c m).2 ≡ true
      → ((register_all a size xs c m).1.slot_count ≡ c.slot_count + length xs)
        × (t < c.slot_count → (register_all a size xs c m).1.has_destroy t ≡ c.has_destroy t)
        × (c.slot_count ≤ t
            → t < c.slot_count + length xs
            → (register_all a size xs c m).1.has_destroy t ≡ true)
        × (times t j (register_all a size xs c m).0.initialised
            ≡ times t j m.initialised
              + (if leb c.slot_count t && ltb t (c.slot_count + length xs) && leb j n
                  then 1
                  else 0))
  unfolding register_all
  register_all-inits n [] c m t j small v h ok = ground arith
  register_all-inits n (x ∷ xs) c m t j small v h ok =
      let m' = (register_slot a size x c m).0 in
      let c' = (register_slot a size x c m).1 in
      let done : (register_slot a size x c m).2 ≢ none = λ e. ground arith in
      let (count, has, inits) = (register_slot-inits a size x n c m t j small v.threads).1 done in
      let ih =
        register_all-inits n xs c' m' t j small (register_slot-IsSlotted a size n x c m small v)
          (ground arith) (ground arith) in
      (
        omega (arith, ih.0, count),
        λ lt. ih.1 (omega (arith, count)) ∙ ap (λ g. g t) has ∙ ground arith,
        λ lo hi. elim (Bool-cases (t == c.slot_count)) [
          | inl same ↦ ih.1 (ground (arith, count)) ∙ ap (λ g. g t) has ∙ ground arith
          | inr other ↦ ih.2 (ground (arith, count)) (omega (arith, count))
        ],
        ih.3 ∙ ground (arith, inits, count),
      )

module _ (a : Allocator) (e : Services a) (z : Sizes) (size : ℕ) where
  -- The context, and the machine, after bc_concurrency_create and the registrations.
  abbrev pub prepared : Plan → Machine a → List SlotConfig → Context → Machine a × Context × Bool
  prepared plan m configs c = register_all a size configs c (create a e z plan m).0

  -- The machine after bc_concurrency_destroy as well.
  abbrev pub lifetime : Plan → Machine a → List SlotConfig → Context → Machine a
  lifetime plan m configs c =
      destroy a e z (prepared plan m configs c).1 (prepared plan m configs c).0

module _ (a : Allocator) (e : Services a) (z : Sizes) (size : ℕ) (laws : IsAllocator a)
    (vector_laws : IsAllocator (vectors a e)) where
  -- Take a context that bc_concurrency_create returns for fewer than 2 ^ 64 - 1 workers, from a machine
  -- without memory contexts and locks, and registrations that all succeed, of slots with both callbacks.
  -- Then `init` and, by the time bc_concurrency_destroy returns, `destroy` have been called equally often
  -- for each slot and worker: once for every registered slot of every worker and of the main thread, and
  -- never for any other.
  pub callbacks_match :
      (plan : Plan) (m : Machine a) (configs : List SlotConfig) (c : Context) (t j : ℕ)
      → ((i : ℕ) → (m.memories i ≡ false) × (m.locks i ≡ false))
      → plan.thread_count + 1 < 2 ^ 64
      → (create a e z plan m).1 ≡ some c
      → has_callbacks a size configs ≡ true
      → (prepared a e z size plan m configs c).2 ≡ true
      → (times t j (prepared a e z size plan m configs c).0.initialised
          ≡ times t j (create a e z plan m).0.initialised
            + (if ltb t (length configs) && leb j plan.thread_count then 1 else 0))
        × (times t j (lifetime a e z size plan m configs c).destroyed
            ≡ times t j (create a e z plan m).0.destroyed
              + (if ltb t (length configs) && leb j plan.thread_count then 1 else 0))
  callbacks_match plan m configs c t j idle small made both all =
      let n = plan.thread_count in
      let created = (create a e z plan m).0 in
      let (owned, shape, none_yet, states) =
        create-Owned a e z laws vector_laws (a.live m.heap) plan m idle refl made in
      let c' = (prepared a e z size plan m configs c).1 in
      let m' = (prepared a e z size plan m configs c).0 in
      let (shape', quiet) = register_all-kept a size n configs c created small shape in
      let (count, old, has, inits) =
        register_all-inits a size n configs c created t j small shape both all in
      let called = (destroy_rest a e z n c' m' t j small shape'.threads).2 in
      let there : j ≤ n → t < length configs → filled (c'.slot j t) ≡ true =
        λ le lt. ground (arith, shape'.there j t le, count, none_yet, Option-cases (c'.slot j t)) in
      (
        inits ∙ ground (arith, none_yet),
        called ∙ ground (arith, count, none_yet, has, there, ap (times t j) quiet.2),
      )

  -- Take a context as in `callbacks_match`, after any registrations, whether they succeed or fail, and two
  -- different pairs of a worker, the main thread counted as the last, and a registered slot.
  -- bc_concurrency_worker_slot gives each worker a block for its slot, and the two blocks differ, are
  -- allocated, and were not before bc_concurrency_create.
  pub private_slots :
      (plan : Plan) (m : Machine a) (configs : List SlotConfig) (c : Context) (i s j t : ℕ)
      → ((k : ℕ) → (m.memories k ≡ false) × (m.locks k ≡ false))
      → plan.thread_count + 1 < 2 ^ 64
      → (create a e z plan m).1 ≡ some c
      → i ≤ plan.thread_count
      → j ≤ plan.thread_count
      → s < (prepared a e z size plan m configs c).1.slot_count
      → t < (prepared a e z size plan m configs c).1.slot_count
      → (i ≢ j) ⊎ (s ≢ t)
      → (p : ℕ) × (q : ℕ) × (worker_slot (prepared a e z size plan m configs c).1 (some i) s
          ≡ some p)
        × (worker_slot (prepared a e z size plan m configs c).1 (some j) t ≡ some q)
        × (p ≢ q)
        × (a.live (prepared a e z size plan m configs c).0.heap p ≡ true)
        × (a.live (prepared a e z size plan m configs c).0.heap q ≡ true)
        × (a.live m.heap p ≡ false)
        × (a.live m.heap q ≡ false)
  unfolding worker_slot
  private_slots plan m configs c i s j t idle small made le le' lt lt' differ =
      let n = plan.thread_count in
      let created = (create a e z plan m).0 in
      let before = a.live m.heap in
      let (owned, shape, none_yet, states) =
        create-Owned a e z laws vector_laws before plan m idle refl made in
      let c' = (prepared a e z size plan m configs c).1 in
      let (shape', quiet) = register_all-kept a size n configs c created small shape in
      let v = register_all-Owned a size laws before n configs c created small shape owned in
      elim (Option-cases (c'.slot i s)) [
        | inl none_there ↦ absurd (shape'.there i s le lt none_there)
        | inr (p, at) ↦ elim (Option-cases (c'.slot j t)) [
          | inl none_there ↦ absurd (shape'.there j t le' lt' none_there)
          | inr (q, at') ↦ (
            p,
            q,
            ground (arith, at),
            ground (arith, at'),
            λ same.
                apart i s j t differ (v.once (slot i s) (slot j t) p at (at' ∙ ap some (sym same))),
            (v.held (slot i s) p at).0,
            (v.held (slot j t) q at').0,
            (v.held (slot i s) p at).1,
            (v.held (slot j t) q at').1,
          )
        ]
      ]
    where
      apart : (i s j t : ℕ) → (i ≢ j) ⊎ (s ≢ t) → slot i s ≢ slot j t
      apart i s j t (inl ne) e = ne (slot-inj e).0
      apart i s j t (inr ne) e = ne (slot-inj e).1
