-- ===== src/Queue/Invariant/Defs.antt =====
-- The invariant of the concurrent queue: the range of the two positions, what each slot holds,
-- what each thread's locals say of the shared cells, and that a claimed position has one owner.
use bc_concurrency.Base.{ℕ, ◌+◌, ◌-◌, ◌^◌, ◌≤◌, ◌<◌, ◌≡◌, ◌⊎◌, Option, none, some}
use bc_concurrency.Queue.{Shape, Cells, slot_sequence, slot_data}
use bc_concurrency.Queue.Steps.{
  Pc, push_look, push_claim, push_copy, push_publish, pop_look, pop_claim, pop_copy, pop_release,
}
use bc_concurrency.Queue.System.{System}

module _ {A : Type 0} where
  -- The position that a thread has claimed and not given up, on either side.
  abbrev pub pushing : Pc A → Option ℕ
  pushing (push_copy x p) = some p
  pushing (push_publish x p) = some p
  pushing _ = none

  abbrev pub popping : Pc A → Option ℕ
  popping (pop_copy p) = some p
  popping (pop_release p v) = some p
  popping _ = none

  module _ (g : Shape) (q : Cells A) (claimed : ℕ → A) where
    -- The slot that position `p` is the next to use: it is free for `p`; or it holds the element of
    -- the position one lap before; or that element is still being written.
    abbrev pub Slot : ℕ → Type 0
    Slot p =
        ((q.sequence_at (slot_sequence g p) ≡ p) × (p < q.dequeue_position + g.capacity))
        ⊎ ((q.sequence_at (slot_sequence g p) + g.capacity ≡ p + 1)
            × (g.capacity ≤ p)
            × (q.item_at (slot_data g p) ≡ claimed (p - g.capacity)))
        ⊎ ((q.sequence_at (slot_sequence g p) + g.capacity ≡ p)
            × (q.dequeue_position + g.capacity ≤ p))

    abbrev pub Local : Pc A → Type 0
    Local (push_look x p) = p ≤ q.enqueue_position
    Local (push_claim x p) =
        (p ≤ q.enqueue_position) × (q.enqueue_position ≡ p → q.sequence_at (slot_sequence g p) ≡ p)
    Local (push_copy x p) =
        (q.dequeue_position ≤ p)
        × (p < q.enqueue_position)
        × (q.sequence_at (slot_sequence g p) ≡ p)
        × (claimed p ≡ x)
    Local (push_publish x p) =
        (q.dequeue_position ≤ p)
        × (p < q.enqueue_position)
        × (q.sequence_at (slot_sequence g p) ≡ p)
        × (claimed p ≡ x)
        × (q.item_at (slot_data g p) ≡ x)
    Local (pop_look p) = p ≤ q.dequeue_position
    Local (pop_claim p) =
        (p ≤ q.dequeue_position)
        × (q.dequeue_position ≡ p → q.sequence_at (slot_sequence g p) ≡ p + 1)
    Local (pop_copy p) =
        (p < q.dequeue_position)
        × (q.enqueue_position ≤ p + g.capacity)
        × (q.sequence_at (slot_sequence g p) ≡ p + 1)
        × (q.item_at (slot_data g p) ≡ claimed p)
    Local (pop_release p v) =
        (p < q.dequeue_position)
        × (q.enqueue_position ≤ p + g.capacity)
        × (q.sequence_at (slot_sequence g p) ≡ p + 1)
        × (v ≡ claimed p)
    Local _ = Unit

-- The part of the invariant that is about the shared cells; `n` bounds the pushes made so far.
pub record Balanced {A : Type 0} (g : Shape) (n : ℕ) (q : Cells A) (claimed : ℕ → A) : Type 0 where
  pub few : q.enqueue_position ≤ n
  pub order : q.dequeue_position ≤ q.enqueue_position
  pub bound : q.enqueue_position ≤ q.dequeue_position + g.capacity
  pub words : (a : ℕ) → q.sequence_at a < 2 ^ 63
  pub slots :
      (p : ℕ) → q.enqueue_position ≤ p → p < q.enqueue_position + g.capacity → Slot g q claimed p

pub record Inv {A : Type 0} (g : Shape) (n : ℕ) (s : System A) : Type 0 where
  pub balanced : Balanced g n s.cells s.claimed
  pub locals : (i : ℕ) → Local g s.cells s.claimed (s.pc i)
  pub one_pusher : (i j p : ℕ) → pushing (s.pc i) ≡ some p → pushing (s.pc j) ≡ some p → i ≡ j
  pub one_popper : (i j p : ℕ) → popping (s.pc i) ≡ some p → popping (s.pc j) ≡ some p → i ≡ j
