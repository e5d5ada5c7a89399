-- ===== src/Queue/CapacityOne.antt =====
-- A queue of capacity 1, which `create` accepts.
use native.Mathlib.Nat.{mod-one}
use bc_concurrency.Base.{
  ℕ, zero, suc, ◌*◌, ◌%◌, ◌≡◌, ◌∙◌, ap, refl, true, false, none, some, arith, update,
}
use bc_concurrency.Queue.{Shape, Cells, slot_sequence, slot_data, fresh_cells, number_slots}
use bc_concurrency.Queue.Layout.{IsShaped, slot_sequence-eq, number_slots-at}
use bc_concurrency.Queue.Steps.{pop_load, pop_look, move}
use bc_concurrency.Queue.Fifo.{push, pushed}
use bc_concurrency.Queue.Calls.{finish, serve}

module _ {A : Type 0} (g : Shape) where
  -- The cells after pushes of `x` and `y` into a new queue.
  unfoldable pub after_one : A → A → Cells A
  after_one blank x = record {
    enqueue_position = 1;
    dequeue_position = 0;
    closed = false;
    sequence_at = update (number_slots g g.capacity 0 (λ _. 0)) (slot_sequence g 0) 1;
    item_at = update (λ _. blank) (slot_data g 0) x;
  }

  unfoldable pub after_two : A → A → A → Cells A
  unfolding after_one
  after_two blank x y = record (after_one blank x) {
    enqueue_position = 2;
    sequence_at = update (after_one blank x).sequence_at (slot_sequence g 1) 2;
    item_at = update (after_one blank x).item_at (slot_data g 1) y;
  }

module _ {g : Shape} (shaped : IsShaped g) (one : g.capacity ≡ 1) where
  only_slot : (p : ℕ) → slot_sequence g p ≡ 0
  only_slot p =
      slot_sequence-eq shaped p
      ∙ ap (λ c. p % c * g.slot_stride_bytes) one
      ∙ ap (λ r. r * g.slot_stride_bytes) (mod-one p)
      ∙ omega arith

  module _ {A : Type 0} where
    first_push :
        (blank x : A)
        → serve g (fresh_cells blank g) (push x) ≡ some (after_one g blank x, pushed true)
    unfolding serve finish move fresh_cells after_one
    first_push blank x = ground (arith, fresh_sequence)
      where
        fresh_sequence : number_slots g g.capacity 0 (λ _. 0) (slot_sequence g 0) ≡ 0
        fresh_sequence =
            number_slots-at shaped g.capacity 0 (λ _. 0) 0 (omega arith) (omega arith) (omega arith)

    second_push :
        (blank x y : A)
        → serve g (after_one g blank x) (push y) ≡ some (after_two g blank x y, pushed true)
    unfolding serve finish move after_two
    second_push blank x y = ground (arith, only_slot 0, only_slot 1)

    pop_spins :
        (blank x y : A) (fuel : ℕ)
        → (finish fuel g (after_two g blank x y) pop_load ≡ none)
          × (finish fuel g (after_two g blank x y) (pop_look 0) ≡ none)
    unfolding finish move after_two
    pop_spins blank x y zero = (refl, refl)
    pop_spins blank x y (suc fuel) =
        ground (arith, pop_spins blank x y fuel, only_slot 0, only_slot 1)

    -- In a sound layout of capacity 1, two uncontended pushes into a new queue are both accepted, the
    -- second one's element stands in the only slot, and a pop then does not return: no fuel is enough
    -- for it, though no other thread moves.
    pub second_push_loses :
        (blank x y : A)
        → (serve g (fresh_cells blank g) (push x) ≡ some (after_one g blank x, pushed true))
          × (serve g (after_one g blank x) (push y) ≡ some (after_two g blank x y, pushed true))
          × ((after_two g blank x y).item_at (slot_data g 0) ≡ y)
          × ((fuel : ℕ) → finish fuel g (after_two g blank x y) pop_load ≡ none)
    unfolding after_two slot_data
    second_push_loses blank x y = (
      first_push blank x,
      second_push blank x y,
      ground (arith, only_slot 0, only_slot 1),
      λ fuel. (pop_spins blank x y fuel).0,
    )
