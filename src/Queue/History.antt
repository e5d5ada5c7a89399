-- ===== src/Queue/History.antt =====
-- The order of the elements over a whole run: what the pushes put in, in the order in which they won
-- their positions, against what a pop has read from the memory of its slot.
use bc_concurrency.Base.{
  ℕ, suc, zero, ◌+◌, ◌^◌, ◌≤◌, ◌<◌, ◌≡◌, ◌⊎◌, inl, inr, refl, ap, ◌∙◌, update, some, List, [], ◌∷◌,
  ◌++◌, length, get_elem?, length-append, arith, Bool, sym,
}
use mathlib.Core.Path.{subst}
use mathlib.Core.List.{append-nil}
use bc_concurrency.Queue.{Shape, Cells, fresh_cells}
use bc_concurrency.Queue.Layout.{IsShaped}
use bc_concurrency.Queue.Steps.{Pc, idle, push_claim, push_copy, pop_copy, pop_release, move}
use bc_concurrency.Queue.System.{System, note, call, access, Reach, start, later}
use bc_concurrency.Queue.Invariant.{Local, Balanced, Inv, Reach-Inv}
use bc_concurrency.Queue.Safety.{pop_value}

-- What an access that leads to `p` puts in, and the position that it wins for a pop.
unfoldable pub put_in : {A : Type 0} → Pc A → List A
put_in (push_copy x p) = x ∷ []
put_in _ = []

unfoldable pub won_by : {A : Type 0} → Pc A → List ℕ
won_by (pop_copy p) = p ∷ []
won_by _ = []

module _ {B : Type 0} where
  -- The list has `f p` at each place `p` below `n`, and ends there.
  abbrev Lists : List B → (ℕ → B) → ℕ → Type 0
  Lists xs f n = (length xs ≡ n) × ((p : ℕ) → p < n → get_elem? xs p ≡ some (f p))

  get_elem?-snoc :
      (xs : List B) (y : B) (p : ℕ)
      → (p < length xs → get_elem? (xs ++ y ∷ []) p ≡ get_elem? xs p)
        × (p ≡ length xs → get_elem? (xs ++ y ∷ []) p ≡ some y)
  get_elem?-snoc [] y zero = ((λ h. ground (arith, h)), λ h. refl)
  get_elem?-snoc [] y (suc p) = ((λ h. ground (arith, h)), λ h. ground (arith, h))
  get_elem?-snoc (x ∷ xs) y zero = ((λ h. refl), λ h. ground (arith, h))
  get_elem?-snoc (x ∷ xs) y (suc p) = (
    (λ h. (get_elem?-snoc xs y p).0 (omega (arith, h))),
    λ h. (get_elem?-snoc xs y p).1 (omega (arith, h)),
  )

  Lists-same : (xs : List B) {f : ℕ → B} {n : ℕ} → Lists xs f n → Lists (xs ++ []) f n
  Lists-same xs {f} {n} h = subst (λ l. Lists l f n) (sym (append-nil xs)) h

  Lists-snoc :
      (xs : List B) (y : B) {f : ℕ → B} {n : ℕ}
      → Lists xs f n
      → Lists (xs ++ y ∷ []) (update f n y) (n + 1)
  Lists-snoc xs y {f} {n} h = (
    omega (arith, length-append xs (y ∷ []), h.0),
    λ p less. ground (arith, get_elem?-snoc xs y p, h.0, h.1 p),
  )

module _ {A : Type 0} {g : Shape} {n : ℕ} {q : Cells A} {claimed : ℕ → A} (two : 2 ≤ g.capacity)
    (small : n + g.capacity < 2 ^ 63) (b : Balanced g n q claimed) (spurious : Bool) where
  open b use {few, order}

  -- An access wins no position for a push, or the next one.
  abbrev Puts : Pc A → Cells A → Type 0
  Puts p q' =
      ((put_in p ≡ []) × (q'.enqueue_position ≡ q.enqueue_position) × (note p claimed ≡ claimed))
      ⊎ ((x : A) × (put_in p ≡ x ∷ [])
          × (q'.enqueue_position ≡ q.enqueue_position + 1)
          × (note p claimed ≡ update claimed q.enqueue_position x))

  Move-Puts :
      (p : Pc A) → Local g q claimed p → Puts (move g spurious q p).1 (move g spurious q p).0
  unfolding move put_in
  Move-Puts (push_claim x p) l = ground (arith)
  Move-Puts idle l = ground arith
  Move-Puts _ l = ground arith

  -- An access wins no position for a pop, or the next one.
  abbrev Wins : Pc A → Cells A → Type 0
  Wins p q' =
      ((won_by p ≡ []) × (q'.dequeue_position ≡ q.dequeue_position))
      ⊎ ((won_by p ≡ q.dequeue_position ∷ []) × (q'.dequeue_position ≡ q.dequeue_position + 1))

  Move-Wins :
      (p : Pc A) → Local g q claimed p → Wins (move g spurious q p).1 (move g spurious q p).0
  unfolding move won_by
  Move-Wins idle l = ground arith
  Move-Wins _ l = ground arith

module _ {A : Type 0} {blank : A} {g : Shape} where
  -- The elements that the pushes of a run have put in, in the order of their winning
  -- compare-exchanges, and the positions that its pops have won, in the order of theirs.
  unfoldable pub all_enqueued : {n : ℕ} {s : System A} → Reach blank g n s → List A
  all_enqueued start = []
  all_enqueued (later r (call i c h)) = all_enqueued r
  all_enqueued (later {s = s} r (access i spurious)) =
      all_enqueued r ++ put_in (move g spurious s.cells (s.pc i)).1

  unfoldable pub all_won : {n : ℕ} {s : System A} → Reach blank g n s → List ℕ
  all_won start = []
  all_won (later r (call i c h)) = all_won r
  all_won (later {s = s} r (access i spurious)) =
      all_won r ++ won_by (move g spurious s.cells (s.pc i)).1

  module _ (shaped : IsShaped g) (two : 2 ≤ g.capacity) where
    enqueued_lem :
        {n : ℕ} {s : System A}
        → n + g.capacity < 2 ^ 63
        → (r : Reach blank g n s) → Lists (all_enqueued r) s.claimed s.cells.enqueue_position
    unfolding all_enqueued fresh_cells
    enqueued_lem small start = (refl, λ p less. ground (arith, less))
    enqueued_lem small (later r (call i c h)) = enqueued_lem (omega arith) r
    enqueued_lem small (later {s = s} r (access i spurious)) =
        let inv : Inv g _ s = Reach-Inv shaped two (omega arith) r in
        let before = enqueued_lem (omega arith) r in
        elim (Move-Puts two (omega arith) inv.balanced spurious (s.pc i) (inv.locals i)) [
          | inl (nothing, same, kept) ↦
              rw (nothing, same, kept) (Lists-same (all_enqueued r) before)
          | inr (x, put, next, noted) ↦ rw (put, next, noted) (Lists-snoc (all_enqueued r) x before)
        ]

    won_lem :
        {n : ℕ} {s : System A}
        → n + g.capacity < 2 ^ 63
        → (r : Reach blank g n s) → Lists (all_won r) (λ p. p) s.cells.dequeue_position
    unfolding all_won fresh_cells
    won_lem small start = (refl, λ p less. ground (arith, less))
    won_lem small (later r (call i c h)) = won_lem (omega arith) r
    won_lem small (later {s = s} r (access i spurious)) =
        let inv : Inv g _ s = Reach-Inv shaped two (omega arith) r in
        let before = won_lem (omega arith) r in
        elim (Move-Wins two (omega arith) inv.balanced spurious (s.pc i) (inv.locals i)) [
          | inl (nothing, same) ↦ rw (nothing, same) (Lists-same (all_won r) before)
          | inr (won, next) ↦
              rw (won, next)
                (
                  (Lists-snoc (all_won r) s.cells.dequeue_position before).0,
                  λ p less. ground (
                    arith,
                    get_elem?-snoc (all_won r) s.cells.dequeue_position p,
                    before.0,
                    before.1 p,
                  ),
                )
        ]

    -- In a run of n steps with n + capacity below 2 ^ 63, over a laid out queue of capacity 2 or more:
    -- when a pop that won position p has read v out of the memory of its slot, and is about to release
    -- the slot and to return v, then v is the element of that push which was number p (from 0) to
    -- win a position, and the pop itself was number p of the pops to win one. As many pushes have won as
    -- `enqueue_position` says, and as many pops as `dequeue_position` says.
    pub fifo_order :
        {n : ℕ} {s : System A}
        → n + g.capacity < 2 ^ 63
        → (r : Reach blank g n s) (i p : ℕ) (v : A) → s.pc i ≡ pop_release p v
        → (get_elem? (all_enqueued r) p ≡ some v)
          × (get_elem? (all_won r) p ≡ some p)
          × (length (all_enqueued r) ≡ s.cells.enqueue_position)
          × (length (all_won r) ≡ s.cells.dequeue_position)
    fifo_order {s = s} small r i p v e =
        let inv : Inv g _ s = Reach-Inv shaped two small r in
        let (less, within, ready, kept) = subst (Local g s.cells s.claimed) e (inv.locals i) in
        let read = pop_value shaped two small r i p v e in
        let won = won_lem small r in
        let put = enqueued_lem small r in
        (
          put.1 p (omega (arith, less, inv.balanced.order)) ∙ ap some (sym read),
          won.1 p less,
          put.0,
          won.0,
        )
