-- ===== src/Queue/Invariant/Runs.antt =====
-- The invariant holds of a new queue and is kept by every step of every thread.
use bc_concurrency.Base.{
  ℕ, suc, ◌+◌, ◌^◌, ◌≤◌, ◌<◌, ◌≡◌, ◌≢◌, ◌⊎◌, inl, refl, ◌∙◌, sym, Bool, Option, none, some, arith,
  update, update_cases,
}
use bc_concurrency.Queue.{Shape, Cells, fresh_cells}
use bc_concurrency.Queue.Layout.{IsShaped, number_slots-at, number_slots-lt}
use bc_concurrency.Queue.Steps.{Pc, idle, move}
use bc_concurrency.Queue.System.{
  System, Call, push, pop, close, enter, note, begin, advance, init, Step, call, access, Reach,
  start, later,
}
use bc_concurrency.Queue.Invariant.Defs.{Slot, Local, Balanced, Inv, pushing, popping}
use bc_concurrency.Queue.Invariant.Moves.{Move-Balanced, Move-Local}
use bc_concurrency.Queue.Invariant.Others.{Other-Local}

module _ {A : Type 0} (g : Shape) where
  -- A claim of the moving thread is one it had, or the position at the end of the queue.
  pushing-move :
      (spurious : Bool) (q : Cells A) (p : Pc A) (r : ℕ)
      → pushing (move g spurious q p).1 ≡ some r
      → (pushing p ≡ some r) ⊎ (r ≡ q.enqueue_position)
  unfolding move
  pushing-move spurious q idle r h = inl h
  pushing-move spurious q _ r h = ground arith

  popping-move :
      (spurious : Bool) (q : Cells A) (p : Pc A) (r : ℕ)
      → popping (move g spurious q p).1 ≡ some r
      → (popping p ≡ some r) ⊎ (r ≡ q.dequeue_position)
  unfolding move
  popping-move spurious q idle r h = inl h
  popping-move spurious q _ r h = ground arith

  pushing-lt :
      (q : Cells A) (claimed : ℕ → A) (o : Pc A) (r : ℕ)
      → Local g q claimed o
      → pushing o ≡ some r
      → r < q.enqueue_position
  pushing-lt q claimed idle r l h = cc
  pushing-lt q claimed _ r l h = ground arith

  popping-lt :
      (q : Cells A) (claimed : ℕ → A) (o : Pc A) (r : ℕ)
      → Local g q claimed o
      → popping o ≡ some r
      → r < q.dequeue_position
  popping-lt q claimed idle r l h = cc
  popping-lt q claimed _ r l h = ground arith

  enter-Local : (q : Cells A) (claimed : ℕ → A) (c : Call A) → Local g q claimed (enter c)
  enter-Local q claimed (push x) = tt
  enter-Local q claimed pop = tt
  enter-Local q claimed close = tt

  enter_owns : (c : Call A) → (pushing (enter c) ≡ none) × (popping (enter c) ≡ none)
  enter_owns (push x) = (refl, refl)
  enter_owns pop = (refl, refl)
  enter_owns close = (refl, refl)

Balanced-suc :
    {A : Type 0} {g : Shape} {n : ℕ} {q : Cells A} {claimed : ℕ → A}
    → Balanced g n q claimed
    → Balanced g (suc n) q claimed
Balanced-suc b = record {
  few = omega (arith, b.few);
  order = b.order;
  bound = b.bound;
  words = b.words;
  slots = b.slots;
}

module _ {A : Type 0} {g : Shape} {n : ℕ} {s : System A} (shaped : IsShaped g)
    (two : 2 ≤ g.capacity) (small : n + g.capacity < 2 ^ 63) (inv : Inv g n s) where
  call-Inv : (i : ℕ) (c : Call A) → Inv g (suc n) (begin i c s)
  call-Inv i c = record {
    balanced = Balanced-suc inv.balanced;
    locals = λ j. ground (arith, inv.locals j, enter-Local g s.cells s.claimed c);
    one_pusher = λ j k p h₁ h₂. ground (arith, inv.one_pusher j k p, enter_owns g c);
    one_popper = λ j k p h₁ h₂. ground (arith, inv.one_popper j k p, enter_owns g c);
  }

  module _ (i : ℕ) (spurious : Bool) where
    abbrev next : Cells A × Pc A
    next = move g spurious s.cells (s.pc i)

    other_pusher : (j : ℕ) → i ≢ j → (r : ℕ) → pushing (s.pc i) ≡ some r → pushing (s.pc j) ≢ some r
    other_pusher j ne r h₁ h₂ = ne (inv.one_pusher i j r h₁ h₂)

    other_popper : (j : ℕ) → i ≢ j → (r : ℕ) → popping (s.pc i) ≡ some r → popping (s.pc j) ≢ some r
    other_popper j ne r h₁ h₂ = ne (inv.one_popper i j r h₁ h₂)

    advance-Local : (j : ℕ) → Local g next.0 (note next.1 s.claimed) (update s.pc i next.1 j)
    advance-Local j =
        update_cases (λ p. Local g next.0 (note next.1 s.claimed) p) s.pc i next.1 j
          (λ e. Move-Local shaped two small inv.balanced spurious (s.pc i) (inv.locals i))
          λ ne.
            Other-Local shaped two small inv.balanced spurious (s.pc i) (s.pc j) (inv.locals i)
              (inv.locals j) (other_pusher j ne) (other_popper j ne)

    -- The mover's claim clashes with no other: it is its own, or a position nobody has reached.
    new_pusher : (j : ℕ) → i ≢ j → (r : ℕ) → pushing next.1 ≡ some r → pushing (s.pc j) ≡ some r → ⊥
    new_pusher j ne r h₁ h₂ = ground (
      arith,
      pushing-move g spurious s.cells (s.pc i) r,
      pushing-lt g s.cells s.claimed (s.pc j) r (inv.locals j),
      other_pusher j ne r,
    )

    new_popper : (j : ℕ) → i ≢ j → (r : ℕ) → popping next.1 ≡ some r → popping (s.pc j) ≡ some r → ⊥
    new_popper j ne r h₁ h₂ = ground (
      arith,
      popping-move g spurious s.cells (s.pc i) r,
      popping-lt g s.cells s.claimed (s.pc j) r (inv.locals j),
      other_popper j ne r,
    )

    advance-Inv : Inv g (suc n) (advance g spurious i s)
    advance-Inv = record {
      balanced = Move-Balanced shaped two small inv.balanced spurious (s.pc i) (inv.locals i);
      locals = advance-Local;
      one_pusher = one_owner pushing inv.one_pusher new_pusher;
      one_popper = one_owner popping inv.one_popper new_popper;
    }
      where
        one_owner :
            (owned : Pc A → Option ℕ)
            → ((j k r : ℕ) → owned (s.pc j) ≡ some r → owned (s.pc k) ≡ some r → j ≡ k)
            → ((j : ℕ) → i ≢ j → (r : ℕ) → owned next.1 ≡ some r → owned (s.pc j) ≡ some r → ⊥)
            → (j k r : ℕ) → owned (update s.pc i next.1 j) ≡ some r
            → owned (update s.pc i next.1 k) ≡ some r
            → j ≡ k
        one_owner owned old fresh j k r =
            update_cases (λ p. owned p ≡ some r → owned (update s.pc i next.1 k) ≡ some r → j ≡ k)
              s.pc i next.1 j
              (λ ij h₁.
                update_cases (λ p. owned p ≡ some r → j ≡ k) s.pc i next.1 k (λ ik h₂. sym ij ∙ ik)
                  (λ ne h₂. absurd (fresh k ne r h₁ h₂)))
              λ ne h₁.
                update_cases (λ p. owned p ≡ some r → j ≡ k) s.pc i next.1 k
                  (λ ik h₂. absurd (fresh j ne r h₂ h₁)) (λ _ h₂. old j k r h₁ h₂)

  pub Step-Inv : {t : System A} → Step g s t → Inv g (suc n) t
  Step-Inv (call i c rest) = call-Inv i c
  Step-Inv (access i spurious) = advance-Inv i spurious

module _ {A : Type 0} {blank : A} {g : Shape} (shaped : IsShaped g) (two : 2 ≤ g.capacity) where
  fresh-slots : (p : ℕ) → 0 ≤ p → p < 0 + g.capacity → Slot g (fresh_cells blank g) (λ _. blank) p
  unfolding fresh_cells
  fresh-slots p lo hi =
      inl
        (number_slots-at shaped g.capacity 0 (λ _. 0) p lo (omega arith) (omega arith), omega arith)

  init-Inv : g.capacity < 2 ^ 63 → Inv g 0 (init blank g)
  unfolding fresh_cells
  init-Inv small = record {
    balanced = record {
      few = omega arith;
      order = omega arith;
      bound = omega arith;
      words =
          λ a. number_slots-lt g (2 ^ 63) g.capacity 0 (λ _. 0) a (omega arith) (λ _. omega arith);
      slots = fresh-slots;
    };
    locals = λ i. tt;
    one_pusher = λ i j p h₁ h₂. cc;
    one_popper = λ i j p h₁ h₂. cc;
  }

  -- A run of fewer than 2 ^ 63 - capacity steps keeps the invariant.
  pub Reach-Inv : {n : ℕ} {s : System A} → n + g.capacity < 2 ^ 63 → Reach blank g n s → Inv g n s
  Reach-Inv small start = init-Inv (omega arith)
  Reach-Inv small (later {n} r step) =
      Step-Inv shaped two (omega arith) (Reach-Inv (omega arith) r) step
