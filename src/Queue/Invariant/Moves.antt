-- ===== src/Queue/Invariant/Moves.antt =====
-- One access of a thread keeps the invariant of the cells, and what it says of its own locals.
use bc_concurrency.Base.{ℕ, suc, ◌+◌, ◌-◌, ◌^◌, ◌≤◌, ◌<◌, ◌≡◌, Bool, arith, ap}
use bc_concurrency.Queue.{Shape, Cells, slot_sequence, slot_data}
use bc_concurrency.Queue.Layout.{IsShaped, slot-lap, slot-eq}
use bc_concurrency.Queue.Steps.{
  Pc, idle, push_check, push_load, push_look, push_claim, push_copy, push_publish, push_done,
  pop_load, pop_look, pop_claim, pop_copy, pop_release, pop_done, close_store, close_done, move,
}
use bc_concurrency.Queue.System.{note}
use bc_concurrency.Queue.Invariant.Defs.{Slot, Local, Balanced}

module _ {A : Type 0} {g : Shape} {n : ℕ} {q : Cells A} {claimed : ℕ → A} (s : IsShaped g)
    (two : 2 ≤ g.capacity) (small : n + g.capacity < 2 ^ 63) (b : Balanced g n q claimed)
    (spurious : Bool) where
  open b use {few, order, bound, words, slots}

  -- The slots after an access.
  Move-slots :
      (p : Pc A)
      → Local g q claimed p
      → let (q', p') = move g spurious q p in
        (r : ℕ)
        → q'.enqueue_position ≤ r
        → r < q'.enqueue_position + g.capacity
        → Slot g q' (note p' claimed) r
  unfolding move slot_data
  Move-slots idle l r lo hi = slots r lo hi
  Move-slots (push_check x) l r lo hi = ground (arith, slots r)
  Move-slots (push_load x) l r lo hi = slots r lo hi
  Move-slots (push_look x p) l r lo hi = ground (arith, slots r)
  Move-slots (push_claim x p) l r lo hi = ground (arith, slots r, slots p, slot-lap s p)
  Move-slots (push_copy x p) l r lo hi = ground (arith, slots r, slot-eq s p r)
  Move-slots (push_publish x p) l r lo hi = ground (arith, slots r, slot-eq s p r)
  Move-slots (push_done c) l r lo hi = slots r lo hi
  Move-slots pop_load l r lo hi = slots r lo hi
  Move-slots (pop_look p) l r lo hi = ground (arith, slots r)
  Move-slots (pop_claim p) l r lo hi =
      ground (arith, slots r, slots p, slots (p + g.capacity), slot-lap s p)
  Move-slots (pop_copy p) l r lo hi = slots r lo hi
  Move-slots (pop_release p v) l r lo hi = ground (arith, slots r, slot-eq s p r)
  Move-slots (pop_done c) l r lo hi = slots r lo hi
  Move-slots close_store l r lo hi = slots r lo hi
  Move-slots close_done l r lo hi = slots r lo hi

  -- An access keeps the invariant of the cells; at most one position more is claimed.
  pub Move-Balanced :
      (p : Pc A)
      → Local g q claimed p
      → let (q', p') = move g spurious q p in Balanced g (suc n) q' (note p' claimed)
  unfolding move
  Move-Balanced p l = record {
    few = fst p l;
    order = order' p l;
    bound = bound' p l;
    words = words' p l;
    slots = Move-slots p l;
  }
    where
      fst : (p : Pc A) → Local g q claimed p → (move g spurious q p).0.enqueue_position ≤ suc n
      fst (push_claim x p) l = ground arith
      fst idle l = omega arith
      fst _ l = ground arith

      order' :
          (p : Pc A)
          → Local g q claimed p
          → (move g spurious q p).0.dequeue_position ≤ (move g spurious q p).0.enqueue_position
      order' (pop_claim p) l = ground (arith, slots p, slots (p + g.capacity), slot-lap s p)
      order' _ l = ground arith

      bound' :
          (p : Pc A)
          → Local g q claimed p
          → (move g spurious q p).0.enqueue_position
            ≤ (move g spurious q p).0.dequeue_position + g.capacity
      bound' (push_claim x p) l = ground (arith, slots p)
      bound' _ l = ground arith

      words' :
          (p : Pc A)
          → Local g q claimed p
          → (a : ℕ) → (move g spurious q p).0.sequence_at a < 2 ^ 63
      words' (push_publish x p) l a = ground (arith, words a)
      words' (pop_release p v) l a = ground (arith, words a)
      words' _ l a = ground (arith, words a)

  -- What the moving thread knows afterwards.
  pub Move-Local :
      (p : Pc A)
      → Local g q claimed p
      → let (q', p') = move g spurious q p in Local g q' (note p' claimed) p'
  unfolding move slot_data
  Move-Local (push_look x p) l = ground (arith, words (slot_sequence g p))
  Move-Local (pop_look p) l = ground (arith, words (slot_sequence g p))
  Move-Local (push_claim x p) l = ground (arith, slots p)
  Move-Local (pop_claim p) l =
      let back : p + g.capacity - g.capacity ≡ p = omega arith in
      ground (arith, slots p, slots (p + g.capacity), slot-lap s p, ap claimed back)
  Move-Local idle l = tt
  Move-Local _ l = ground arith
