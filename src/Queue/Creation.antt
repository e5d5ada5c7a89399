-- ===== src/Queue/Creation.antt =====
-- `bc_concurrency_queue_create` and `destroy`: what they answer, what they lay out, what they
-- allocate and free.
use native.Mathlib.Nat.{one-le-pow}
use bc_concurrency.Base.{
  ℕ, ◌+◌, ◌*◌, ◌^◌, ◌≤◌, ◌<◌, ◌≡◌, ◌≢◌, ap, refl, sym, ◌⊎◌, true, false, Option, none, some, [],
  inl, inr, arith, update, Option-cases,
}
use mathlib.Core.Path.{subst₂}
use bc_concurrency.Base.Words.{u64}
use bc_concurrency.Allocator.{Allocator, IsAllocator}
use bc_concurrency.Queue.{
  Shape, Cells, Queue, shape_of, fresh_cells, effective_capacity, build, create, destroy, align_up,
  queue_bytes, sequence_bytes,
}
use bc_concurrency.Queue.Layout.{IsShaped, number_slots-at}
use bc_concurrency.Queue.Sizing.{
  pow_63, IsRounded, effective_capacity-IsRounded, align_up-cacheline,
}
use bc_concurrency.Queue.Contents.{contents, window}
use bc_concurrency.Queue.Refine.{Settled, view}

mul_lt : (a b c d : ℕ) → a < b → c < d → a * c < b * d
mul_lt a b c d h k = grind arith

-- A slot has room for its sequence number and its element, and less than a cache line more.
stride_bounds :
    (element_size : ℕ)
    → element_size + 72 ≤ 2 ^ 64
    → (sequence_bytes + element_size ≤ (shape_of element_size 0).slot_stride_bytes)
      × ((shape_of element_size 0).slot_stride_bytes < element_size + 72)
unfolding shape_of
stride_bounds element_size small =
    omega (arith, align_up-cacheline (sequence_bytes + element_size), ap (λ n. align_up n 64) whole)
  where
    whole : u64 (sequence_bytes + element_size) ≡ sequence_bytes + element_size
    whole = omega arith

-- The layout is sound for a power of two, if the buffer's size fits 64 bits.
shape_of-IsShaped :
    (element_size k : ℕ)
    → k ≤ 63
    → element_size + 72 ≤ 2 ^ 64
    → (shape_of element_size (2 ^ k)).slot_stride_bytes * 2 ^ k < 2 ^ 64
    → IsShaped (shape_of element_size (2 ^ k))
unfolding shape_of
shape_of-IsShaped element_size k top small fits = record {
  exponent = k;
  power = refl;
  mask = omega (arith, pow_63 k top, one-le-pow k 2 (omega arith));
  room = (stride_bounds element_size small).0;
  fits = fits;
}

-- A new queue is settled and empty.
pub fresh-Settled :
    {A : Type 0} {g : Shape} (blank : A)
    → IsShaped g
    → Settled g 0 (fresh_cells blank g) (λ _. blank)
unfolding fresh_cells
fresh-Settled {g = g} blank shaped = record {
  few = omega arith;
  order = omega arith;
  bound = omega arith;
  slots = λ p lo hi.
      inl (
        number_slots-at shaped g.capacity 0 (λ _. 0) p lo (omega arith) (omega arith),
        omega arith,
      );
}

-- Where the request below cannot wrap, the layout of the rounded capacity is sound.
rounded-IsShaped :
    (element_size capacity c : ℕ)
    → (element_size + 72) * (2 * capacity) ≤ 2 ^ 64
    → 0 < capacity
    → IsRounded capacity c
    → IsShaped (shape_of element_size c)
unfolding shape_of
rounded-IsShaped element_size capacity c fits pos r =
    rw r.power (shape_of-IsShaped element_size r.exponent r.small whole (rw (← r.power) in_words))
  where
    whole : element_size + 72 ≤ 2 ^ 64
    whole = grind arith

    stride : (shape_of element_size c).slot_stride_bytes < element_size + 72
    stride = (stride_bounds element_size whole).1

    in_words : (shape_of element_size c).slot_stride_bytes * c < 2 ^ 64
    in_words = omega (arith, mul_lt _ _ c (2 * capacity) stride r.least)

-- What a client may rely on in a new queue: a sound layout of the least power of two that is not
-- below the capacity asked for, and cells that are settled, open and empty.
abbrev pub IsNew : {A : Type 0} → A → ℕ → Shape → Cells A → Type 0
IsNew blank capacity g cells =
    IsShaped g
    × IsRounded capacity g.capacity
    × Settled g 0 cells (λ _. blank)
    × (view cells (λ _. blank) ≡ record { items = []; closed = false })

fresh-IsNew :
    {A : Type 0} (blank : A) (element_size capacity c : ℕ)
    → (element_size + 72) * (2 * capacity) ≤ 2 ^ 64
    → 0 < capacity
    → IsRounded capacity c
    → IsNew blank capacity (shape_of element_size c) (fresh_cells blank (shape_of element_size c))
unfolding shape_of fresh_cells contents window
fresh-IsNew blank element_size capacity c fits pos r =
    let shaped = rounded-IsShaped element_size capacity c fits pos r in
    (shaped, r, fresh-Settled blank shaped, refl)

module _ (a : Allocator) {A : Type 0} (blank : A) where
  -- What a successful `build` returns.
  build-some :
      (h : a.Heap) (element_size c : ℕ) {h' : a.Heap} {q : Queue A}
      → build a blank h element_size c ≡ (h', some q)
      → (q.shape ≡ shape_of element_size c)
        × (q.cells ≡ fresh_cells blank (shape_of element_size c))
  unfolding build
  build-some h element_size c e = ground arith

  -- With 64 rounds of fuel or more, `create` returns for every capacity up to 2 ^ 63.
  pub create_total :
      (fuel : ℕ) (h : a.Heap) (element_size capacity : ℕ)
      → 64 ≤ fuel
      → capacity ≤ 2 ^ 63
      → create a fuel blank h element_size capacity ≢ none
  unfolding create
  create_total fuel h element_size capacity f small e =
      ground (arith, effective_capacity-IsRounded fuel capacity f)

  -- An answer of `create` to arguments that are not zero is one of `build`, for the rounded capacity.
  create-build :
      (fuel : ℕ) (h : a.Heap) (element_size capacity : ℕ)
      → 64 ≤ fuel
      → 0 < element_size
      → 0 < capacity
      → capacity ≤ 2 ^ 63
      → (c : ℕ) × IsRounded capacity c
        × (create a fuel blank h element_size capacity ≡ some (build a blank h element_size c))
  unfolding create
  create-build fuel h element_size capacity f e pos small =
      let (c, eq, r) = effective_capacity-IsRounded fuel capacity f pos small in
      (c, r, ground (arith, eq))

  create-zero :
      (fuel : ℕ) (h : a.Heap) (element_size capacity : ℕ)
      → (element_size ≡ 0) ⊎ (capacity ≡ 0)
      → create a fuel blank h element_size capacity ≡ some (h, none)
  unfolding create
  create-zero fuel h element_size capacity z = ground arith

  some_arguments :
      (fuel : ℕ) (h : a.Heap) (element_size capacity : ℕ) {h' : a.Heap} {q : Queue A}
      → create a fuel blank h element_size capacity ≡ some (h', some q)
      → (0 < element_size) × (0 < capacity)
  unfolding create
  some_arguments fuel h element_size capacity e = ground arith

  -- For 64 rounds of fuel or more, and an element size and a capacity whose slots, at 72 bytes more
  -- than an element each, fit 2 ^ 64 bytes twice over: a queue that `create` returns has a sound
  -- layout, the least power of two that is not below the capacity asked for as its capacity, and cells
  -- that are settled, open and empty.
  pub create-IsNew :
      (fuel : ℕ) (h : a.Heap) (element_size capacity : ℕ) {h' : a.Heap} {q : Queue A}
      → 64 ≤ fuel
      → (element_size + 72) * (2 * capacity) ≤ 2 ^ 64
      → create a fuel blank h element_size capacity ≡ some (h', some q)
      → IsNew blank capacity q.shape q.cells
  create-IsNew fuel h element_size capacity {h'} {q} f fits e =
      let (es, pos) = some_arguments fuel h element_size capacity e in
      let (c, r, built) = create-build fuel h element_size capacity f es pos (grind arith) in
      let same : build a blank h element_size c ≡ (h', some q) = cc in
      let (shape, cells) = build-some h element_size c same in
      subst₂ (IsNew blank capacity) (sym shape) (sym cells)
        (fresh-IsNew blank element_size capacity c fits pos r)

  module _ (laws : IsAllocator a) where
    -- The heap when `build` has returned false, or has returned a queue that was then destroyed.
    abbrev pub given_back : a.Heap × Option (Queue A) → a.Heap
    given_back (h, none) = h
    given_back (h, some q) = destroy a h q

    second :
        (h : a.Heap) (element_size c address p : ℕ)
        → let o = a.allocate h (u64 ((shape_of element_size c).slot_stride_bytes * c)) in
          a.live h address ≡ true
          → ((b : ℕ)
              → o.1 ≡ some b
              → a.live (a.free (a.free o.0 b) address) p ≡ update (a.live h) address false p)
            × (o.1 ≡ none → a.live (a.free o.0 address) p ≡ update (a.live h) address false p)
    second h element_size c address p l = (
      λ b e. ground (
        arith,
        laws.free_live o.0 b p,
        laws.free_live (a.free o.0 b) address p,
        laws.allocate_live h size p p,
        laws.allocate_live h size b p,
        laws.allocate_fresh h size b,
      ),
      λ e. ground (arith, laws.free_live o.0 address p, laws.allocate_none h size p),
    )
      where
        size : ℕ
        size = u64 ((shape_of element_size c).slot_stride_bytes * c)

        o : a.Heap × Option ℕ
        o = a.allocate h size

    build_memory :
        (h : a.Heap) (element_size c p : ℕ)
        → a.live (given_back (build a blank h element_size c)) p ≡ a.live h p
    unfolding build destroy
    build_memory h element_size c p = elim (Option-cases outer.1) [
      | inl e ↦ ground (arith, laws.allocate_none h queue_bytes p)
      | inr (address, e) ↦
          let live_now : a.live outer.0 address ≡ true =
            ground (arith, laws.allocate_live h queue_bytes address address) in
          let (freed, refused) = second outer.0 element_size c address p live_now in
          elim (Option-cases (inner.1)) [
            | inl e' ↦ ground (
              arith,
              refused e',
              laws.allocate_live h queue_bytes address p,
              laws.allocate_fresh h queue_bytes address,
            )
            | inr (b, e') ↦ ground (
              arith,
              freed b e',
              laws.allocate_live h queue_bytes address p,
              laws.allocate_fresh h queue_bytes address,
            )
          ]
    ]
      where
        outer : a.Heap × Option ℕ
        outer = a.allocate h queue_bytes

        inner : a.Heap × Option ℕ
        inner = a.allocate outer.0 (u64 ((shape_of element_size c).slot_stride_bytes * c))

    -- Under the allocator's laws, a `create` that returns false leaves every block live or free as it
    -- was, and so does one that returns a queue, followed by the `destroy` of that queue.
    pub create_memory :
        (fuel : ℕ) (h : a.Heap) (element_size capacity p : ℕ) {r : a.Heap × Option (Queue A)}
        → create a fuel blank h element_size capacity ≡ some r
        → a.live (given_back r) p ≡ a.live h p
    unfolding create
    create_memory fuel h element_size capacity p e =
        elim (Option-cases (effective_capacity fuel capacity)) [
          | inl none_ ↦ ground arith
          | inr (c, some_) ↦ ground (arith, build_memory h element_size c p)
        ]
