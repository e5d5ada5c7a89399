-- ===== src/Queue/Layout.antt =====
-- Where the slots of `slot_buffer` lie, and which of them the numbering loop of `create` writes.
use native.Mathlib.Nat.{mod-lt, mod-eq_of_lt, add-mod_right, div-add-mod, one-le-pow}
use native.Mathlib.Decide.{dec_lt, ℕ_discrete}
use bc_concurrency.Base.{
  ℕ, zero, suc, ◌+◌, ◌-◌, ◌*◌, ◌%◌, ◌^◌, ◌≤◌, ◌<◌, ◌≡◌, ◌∙◌, ap, refl, sym, arith, bit_and, update,
}
use bc_concurrency.Base.Bits.{bit_and_ones}
use bc_concurrency.Base.Words.{u64}
use bc_concurrency.Queue.{Shape, slot_sequence, slot_data, sequence_bytes, number_slots}

-- A shape as `create` lays it out, where the size of the buffer does not wrap.
pub record IsShaped (g : Shape) : Type 0 where
  pub exponent : ℕ
  pub power : g.capacity ≡ 2 ^ exponent
  pub mask : g.capacity_mask ≡ g.capacity - 1
  pub room : sequence_bytes + g.element_size ≤ g.slot_stride_bytes
  pub fits : g.slot_stride_bytes * g.capacity < 2 ^ 64

module _ {g : Shape} (s : IsShaped g) where
  pub capacity_pos : 0 < g.capacity
  capacity_pos = omega (arith, s.power, one-le-pow s.exponent 2 (omega arith))

  bit_and-mask : (p : ℕ) → bit_and p g.capacity_mask ≡ p % g.capacity
  bit_and-mask p =
      ap (bit_and p) (s.mask ∙ ap (λ c. c - 1) s.power)
      ∙ bit_and_ones s.exponent p
      ∙ ap (λ c. p % c) (sym s.power)

  slot_end :
      (p : ℕ)
      → p % g.capacity * g.slot_stride_bytes + g.slot_stride_bytes
        ≤ g.slot_stride_bytes * g.capacity
  slot_end p = grind (arith, mod-lt p capacity_pos)

  pub slot_sequence-eq : (p : ℕ) → slot_sequence g p ≡ p % g.capacity * g.slot_stride_bytes
  unfolding slot_sequence
  slot_sequence-eq p =
      ap (λ i. u64 (i * g.slot_stride_bytes)) (bit_and-mask p)
      ∙ mod-eq_of_lt (omega (arith, slot_end p, s.room, s.fits))

  -- In a sound layout, the slot of every position lies inside the buffer, the element begins behind
  -- the sequence number and ends within the slot.
  pub slot_bounds :
      (p : ℕ)
      → (slot_sequence g p + sequence_bytes ≤ slot_data g p)
        × (slot_data g p + g.element_size ≤ slot_sequence g p + g.slot_stride_bytes)
        × (slot_sequence g p + g.slot_stride_bytes ≤ g.slot_stride_bytes * g.capacity)
  unfolding slot_data
  slot_bounds p = omega (arith, slot_sequence-eq p, slot_end p, s.room)

  -- One lap on, the slot is the same.
  pub slot-lap : (p : ℕ) → slot_sequence g (p + g.capacity) ≡ slot_sequence g p
  slot-lap p =
      slot_sequence-eq (p + g.capacity)
      ∙ ap (λ r. r * g.slot_stride_bytes) (add-mod_right p g.capacity)
      ∙ sym (slot_sequence-eq p)

  -- In a sound layout, a slot ends before the slot of every position with a larger remainder begins.
  pub slot-disjoint :
      (p q : ℕ)
      → p % g.capacity < q % g.capacity
      → slot_sequence g p + g.slot_stride_bytes ≤ slot_sequence g q
  slot-disjoint p q h =
      let step : (p % g.capacity + 1) * g.slot_stride_bytes ≤ q % g.capacity * g.slot_stride_bytes =
        grind arith in
      omega (arith, slot_sequence-eq p, slot_sequence-eq q)

  stride_pos : 0 < g.slot_stride_bytes
  stride_pos = omega (arith, s.room)

  mod-eq_of_slot-eq :
      (p q : ℕ) → slot_sequence g p ≡ slot_sequence g q → p % g.capacity ≡ q % g.capacity
  mod-eq_of_slot-eq p q e = elim (dec_lt (p % g.capacity) (q % g.capacity)) [
    | yes lt ↦ absurd (omega (arith, slot-disjoint p q lt, stride_pos))
    | no ge ↦ elim (dec_lt (q % g.capacity) (p % g.capacity)) [
      | yes gt ↦ absurd (omega (arith, slot-disjoint q p gt, stride_pos))
      | no le ↦ omega arith
    ]
  ]

  -- Within one lap, positions in one slot are equal or a lap apart.
  pub slot-eq :
      (p q : ℕ)
      → slot_sequence g p ≡ slot_sequence g q
      → p < q
      → q < p + g.capacity + g.capacity
      → q ≡ p + g.capacity
  slot-eq p q e lt far =
      grind (arith, mod-eq_of_slot-eq p q e, div-add-mod p g.capacity, div-add-mod q g.capacity)

  -- The numbering loop of `create` touches each slot once.
  number_slots-below :
      (n i : ℕ) (f : ℕ → ℕ) (p : ℕ)
      → p < i
      → i + n ≤ g.capacity
      → number_slots g n i f (slot_sequence g p) ≡ f (slot_sequence g p)
  unfolding number_slots
  number_slots-below zero i f p h fit = refl
  number_slots-below (suc n) i f p h fit =
      number_slots-below n (i + 1) (update f (slot_sequence g i) i) p (omega arith) (omega arith)
      ∙ ground (arith, slot-eq p i)

  pub number_slots-at :
      (n i : ℕ) (f : ℕ → ℕ) (p : ℕ)
      → i ≤ p
      → p < i + n
      → i + n ≤ g.capacity
      → number_slots g n i f (slot_sequence g p) ≡ p
  unfolding number_slots
  number_slots-at zero i f p lo hi fit = absurd (omega arith)
  number_slots-at (suc n) i f p lo hi fit = elim (ℕ_discrete i p) [
    | yes e ↦
        number_slots-below n (i + 1) (update f (slot_sequence g i) i) p (omega arith) (omega arith)
        ∙ rw e (ground arith)
    | no ne ↦
        number_slots-at n (i + 1) (update f (slot_sequence g i) i) p (omega arith) (omega arith)
          (omega arith)
  ]

pub number_slots-lt :
    (g : Shape) (b n i : ℕ) (f : ℕ → ℕ) (a : ℕ)
    → i + n ≤ b
    → ((a : ℕ) → f a < b)
    → number_slots g n i f a < b
unfolding number_slots
number_slots-lt g b zero i f a h small = small a
number_slots-lt g b (suc n) i f a h small =
    number_slots-lt g b n (i + 1) (update f (slot_sequence g i) i) a (omega arith)
      λ c. ground (arith, small c)
