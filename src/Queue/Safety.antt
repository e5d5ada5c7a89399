-- ===== src/Queue/Safety.antt =====
-- The states that any number of threads reach over one queue, interleaved one access at a time.
use bc_concurrency.Base.{ℕ, ◌+◌, ◌^◌, ◌≤◌, ◌<◌, ◌≡◌, ◌⊎◌, Bool, Option, none, some, arith, true}
use mathlib.Core.Path.{subst}
use bc_concurrency.Queue.{Shape, Cells, slot_sequence}
use bc_concurrency.Queue.Layout.{IsShaped, slot-eq, slot-lap}
use bc_concurrency.Queue.Steps.{
  Pc, idle, push_claim, push_copy, push_publish, pop_claim, pop_copy, pop_release, move,
}
use bc_concurrency.Queue.System.{System, note, advance, Reach}
use bc_concurrency.Queue.Fifo.{Event, silent, enqueued, dequeued, Fires}
use bc_concurrency.Queue.Contents.{contents, window-claim, window-uncons, length-contents}
use bc_concurrency.Queue.Invariant.{Local, Balanced, Inv, Reach-Inv, pushing, popping}

-- The position whose slot a thread may read or write.
abbrev pub owned : {A : Type 0} → Pc A → Option ℕ
owned (push_copy x p) = some p
owned (push_publish x p) = some p
owned (pop_copy p) = some p
owned (pop_release p v) = some p
owned _ = none

-- What an access that leads to `p` does to the list of elements.
abbrev pub event : {A : Type 0} → (ℕ → A) → Pc A → Event A
event claimed (push_copy x p) = enqueued x
event claimed (pop_copy p) = dequeued (claimed p)
event claimed _ = silent

module _ {A : Type 0} {g : Shape} {n : ℕ} {q : Cells A} {claimed : ℕ → A} (s : IsShaped g)
    (two : 2 ≤ g.capacity) (small : n + g.capacity < 2 ^ 63) (b : Balanced g n q claimed)
    (spurious : Bool) where
  open b use {few, order, bound, slots}

  Move-Fires :
      (p : Pc A)
      → Local g q claimed p
      → let (q', p') = move g spurious q p in
        Fires g.capacity (contents q claimed) (event claimed p') (contents q' (note p' claimed))
  unfolding move contents
  Move-Fires (push_claim x p) l = ground (
    arith,
    slots p,
    length-contents q claimed,
    window-claim claimed q.dequeue_position q.enqueue_position x,
  )
  Move-Fires (pop_claim p) l = ground (
    arith,
    slots p,
    slots (p + g.capacity),
    slot-lap s p,
    window-uncons claimed q.dequeue_position q.enqueue_position,
  )
  Move-Fires idle l = ground arith
  Move-Fires _ l = ground arith

  -- What an owner knows of its slot, on either side.
  abbrev Claim : Pc A → ℕ → Type 0
  Claim p a =
      ((pushing p ≡ some a)
        × (q.dequeue_position ≤ a)
        × (a < q.enqueue_position)
        × (q.sequence_at (slot_sequence g a) ≡ a))
      ⊎ ((popping p ≡ some a)
          × (a < q.dequeue_position)
          × (q.enqueue_position ≤ a + g.capacity)
          × (q.sequence_at (slot_sequence g a) ≡ a + 1))

  owned-Claim : (p : Pc A) (a : ℕ) → Local g q claimed p → owned p ≡ some a → Claim p a
  owned-Claim idle a l h = cc
  owned-Claim _ a l h = ground arith

  same_side :
      (p o : Pc A) (a c : ℕ)
      → Claim p a
      → Claim o c
      → slot_sequence g a ≡ slot_sequence g c
      → ((pushing p ≡ some a) × (pushing o ≡ some a))
        ⊎ ((popping p ≡ some a) × (popping o ≡ some a))
  same_side p o a c h k e = ground (arith, slot-eq s a c e, slot-eq s c a)

module _ {A : Type 0} {blank : A} {g : Shape} {n : ℕ} {s : System A} (shaped : IsShaped g)
    (two : 2 ≤ g.capacity) (small : n + g.capacity < 2 ^ 63) (r : Reach blank g n s) where
  reached : Inv g n s
  reached = Reach-Inv shaped two small r

  -- In a run of n steps with n + capacity below 2 ^ 63, over a laid out queue of capacity 2 or more,
  -- every access of a thread either leaves the list of elements alone, or wins a position for a push,
  -- finds fewer than `capacity` elements and appends the pushed one, or wins a position for a pop and
  -- takes the oldest element away.
  pub access_refines :
      (i : ℕ) (spurious : Bool)
      → Fires g.capacity
          (contents s.cells s.claimed)
          (event s.claimed (move g spurious s.cells (s.pc i)).1)
          (contents (advance g spurious i s).cells (advance g spurious i s).claimed)
  access_refines i spurious =
      Move-Fires shaped two small reached.balanced spurious (s.pc i) (reached.locals i)

  -- In a run of n steps with n + capacity below 2 ^ 63, over a laid out queue of capacity 2 or more,
  -- two threads that own positions of one slot, to copy into it or out of it or to release it, are one
  -- thread.
  pub slot_owner_unique :
      (i j a c : ℕ)
      → owned (s.pc i) ≡ some a
      → owned (s.pc j) ≡ some c
      → slot_sequence g a ≡ slot_sequence g c
      → i ≡ j
  slot_owner_unique i j a c h k e = ground (
    arith,
    same_side shaped two small reached.balanced true (s.pc i) (s.pc j) a c
        (owned-Claim shaped two small reached.balanced true (s.pc i) a (reached.locals i) h)
        (owned-Claim shaped two small reached.balanced true (s.pc j) c (reached.locals j) k) e,
    reached.one_pusher i j a,
    reached.one_popper i j a,
  )

  pub pop_value : (i p : ℕ) (v : A) → s.pc i ≡ pop_release p v → v ≡ s.claimed p
  pop_value i p v e = (subst (Local g s.cells s.claimed) e (reached.locals i)).3
