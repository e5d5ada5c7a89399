-- ===== src/Fuzzing/Returns.antt =====
-- The fuzzing driver of the queue returns, and leaves no block behind.
use bc_concurrency.Base.{
  false, bit_and, ◌/◌, ◌%◌, ℕ, zero, suc, ◌+◌, ◌*◌, ◌^◌, ◌≤◌, ◌<◌, ◌≡◌, inl, inr, ap, refl, Option,
  none, some, leb, ltb, ◌==◌, Bool-cases, arith,
}
use bc_concurrency.Base.Words.{u64}
use bc_concurrency.Allocator.{Allocator, IsAllocator}
use bc_concurrency.Queue.{Shape, Cells, Queue, create, destroy}
use bc_concurrency.Queue.Layout.{IsShaped}
use bc_concurrency.Queue.Fifo.{Op, push, pop, close}
use bc_concurrency.Queue.Calls.{serve}
use bc_concurrency.Queue.Refine.{Settled, served_lem}
use bc_concurrency.Queue.Creation.{create_total, create-IsNew, create_memory}
use bc_concurrency.Fuzzing.{ignoring, run_operation, fuzz_loop, fuzz_one, element_at}

module _ {g : Shape} (shaped : IsShaped g) (two : 2 ≤ g.capacity) where
  Settled-mono :
      {n m : ℕ} {q : Cells ℕ} {claimed : ℕ → ℕ}
      → n ≤ m
      → Settled g n q claimed
      → Settled g m q claimed
  Settled-mono le s = record {
    few = omega (arith, s.few);
    order = s.order;
    bound = s.bound;
    slots = s.slots;
  }

  -- A queue to go on with.
  abbrev Going : ℕ → Option (Cells ℕ) → Type 0
  Going n r = (q : Cells ℕ) × (claimed : ℕ → ℕ) × (r ≡ some q) × Settled g n q claimed

  served-Going :
      {n : ℕ} {q : Cells ℕ} {claimed : ℕ → ℕ} (o : Op ℕ)
      → n + g.capacity < 2 ^ 63
      → Settled g n q claimed
      → Going (suc n) (ignoring (serve g q o))
  served-Going o small s =
      let done = served_lem shaped two o small s in
      (done.after, done.claimed', ap ignoring done.served, done.settled)

  run_operation-Going :
      {n : ℕ} {q : Cells ℕ} {claimed : ℕ → ℕ} (operation element : ℕ)
      → n + 2 + g.capacity < 2 ^ 63
      → Settled g n q claimed
      → Going (n + 2) (run_operation g q operation element)
  unfolding run_operation
  run_operation-Going {n} {q} {claimed} operation element small s =
      elim (Bool-cases (operation == 0)) [
        | inl e ↦ rw e (once (push element))
        | inr e₀ ↦ elim (Bool-cases (operation == 1)) [
          | inl e ↦ rw (e₀, e) (once pop)
          | inr e₁ ↦ elim (Bool-cases (operation == 2)) [
            | inl e ↦ rw (e₀, e₁, e) (once close)
            | inr e₂ ↦ elim (Bool-cases (operation == 3)) [
              | inl e ↦ rw (e₀, e₁, e₂, e) (q, claimed, refl, Settled-mono (omega arith) s)
              | inr e₃ ↦ rw (e₀, e₁, e₂, e₃) twice
            ]
          ]
        ]
      ]
    where
      once : (o : Op ℕ) → Going (n + 2) (ignoring (serve g q o))
      once o =
          let (q', claimed', e, s') = served-Going o (omega arith) s in
          (q', claimed', e, Settled-mono (omega arith) s')

      twice : Going (n + 2) (elim (ignoring (serve g q (push element))) [
        | none ↦ none
        | some q' ↦ ignoring (serve g q' pop)
      ])
      twice =
          let (q', claimed', e, s') = served-Going (push element) (omega arith) s in
          let (q'', claimed'', e', s'') = served-Going pop (omega arith) s' in
          rw e ((q'', claimed'', e', Settled-mono (omega arith) s''))

  -- From `position` on, `k` rounds and the last test of the loop are enough.
  fuzz_loop-returns :
      (k fuel : ℕ) (data_ : ℕ → ℕ) (size position n : ℕ) {q : Cells ℕ} {claimed : ℕ → ℕ}
      → k < fuel
      → size < position + 5 * k
      → size < 2 ^ 62
      → position ≤ 2 ^ 62
      → n + 2 * k + g.capacity < 2 ^ 63
      → Settled g n q claimed
      → (q' : Cells ℕ) × (fuzz_loop fuel data_ size position g q ≡ some q')
  unfolding fuzz_loop
  fuzz_loop-returns k zero data_ size position n f enough few low small s = absurd (omega arith)
  fuzz_loop-returns zero (suc fuel) data_ size position n {q} f enough few low small s =
      (q, ground arith)
  fuzz_loop-returns (suc k) (suc fuel) data_ size position n {q} f enough few low small s =
      elim (Bool-cases (leb (u64 (position + 5)) size)) [
        | inr stop ↦ (q, ground arith)
        | inl more ↦
            let room : position + 5 ≤ size = ground arith in
            let (q', claimed', e, s') =
              run_operation-Going (bit_and (data_ position) 7) (element_at data_ (position + 1))
                (omega arith) s in
            let (q'', e') =
              fuzz_loop-returns k fuel data_ size (u64 (position + 5)) (n + 2) (omega arith)
                (omega (arith, room)) few (omega (arith, room)) (omega arith) s' in
            (q'', rw (more, e) e')
      ]

module _ (a : Allocator) (laws : IsAllocator a) where
  -- For an input of 2 to 2 ^ 62 - 1 bytes, a memory context that can be created, and as many rounds of
  -- fuel as the input has bytes, and 64 at least: whatever the bytes and whatever the allocator answers,
  -- the driver returns, each of its calls of the queue having returned, and the pool has the blocks that
  -- it had before.
  pub fuzz_returns :
      (fuel : ℕ) (h : a.Heap) (data_ : ℕ → ℕ) (size : ℕ)
      → 2 ≤ size
      → size < 2 ^ 62
      → size ≤ fuel
      → 64 ≤ fuel
      → (h' : a.Heap) × (fuzz_one a fuel (some h) data_ size ≡ some (some h'))
        × ((p : ℕ) → a.live h' p ≡ a.live h p)
  unfolding fuzz_one destroy
  fuzz_returns fuel h data_ size two few enough rounds =
      rw long (go (create a fuel 0 h 4 (data_ 0 % 63 + 2)) refl)
    where
      long : ltb size 2 ≡ false
      long = ground arith

      go :
          (o : Option (a.Heap × Option (Queue ℕ)))
          → create a fuel 0 h 4 (data_ 0 % 63 + 2) ≡ o
          → (h' : a.Heap) × (elim o [
            | none ↦ none
            | some (h', none) ↦ some (some h')
            | some (h', some queue) ↦ elim (fuzz_loop fuel data_ size 1 queue.shape queue.cells) [
              | none ↦ none
              | some q ↦ some (some (destroy a h' (record queue { cells = q })))
            ]
          ]
              ≡ some (some h'))
            × ((p : ℕ) → a.live h' p ≡ a.live h p)
      go none e = absurd (create_total a 0 fuel h 4 (data_ 0 % 63 + 2) rounds (omega arith) e)
      go (some (h', none)) e =
          (h', refl, λ p. create_memory a 0 laws fuel h 4 (data_ 0 % 63 + 2) p e)
      go (some (h', some queue)) e =
          let (shaped, rounded, settled, empty) =
            create-IsNew a 0 fuel h 4 (data_ 0 % 63 + 2) rounds (omega arith) e in
          let (q, end) =
            fuzz_loop-returns shaped (omega (arith, rounded.above)) (size / 2) fuel data_ size 1 0
              (omega arith) (omega arith) few (omega arith) (omega (arith, rounded.least))
              settled in
          (
            destroy a h' queue,
            rw end refl,
            λ p. create_memory a 0 laws fuel h 4 (data_ 0 % 63 + 2) p e,
          )
