-- ===== src/Queue/Contents.antt =====
-- The elements that are in the queue, oldest first: those of the positions from
-- `dequeue_position` up to `enqueue_position`.
use bc_concurrency.Base.{
  ℕ, zero, suc, ◌+◌, ◌-◌, ◌≤◌, ◌<◌, ◌≡◌, refl, ap, ◌∙◌, List, [], ◌∷◌, ◌++◌, length, arith, update,
}
use bc_concurrency.Queue.{Cells}

module _ {A : Type 0} where
  unfoldable pub window : (ℕ → A) → ℕ → ℕ → List A
  window f d zero = []
  window f d (suc n) = f d ∷ window f (d + 1) n

  unfoldable pub contents : Cells A → (ℕ → A) → List A
  contents q claimed = window claimed q.dequeue_position (q.enqueue_position - q.dequeue_position)

  length-window : (f : ℕ → A) (d n : ℕ) → length (window f d n) ≡ n
  unfolding window
  length-window f d zero = refl
  length-window f d (suc n) = ap suc (length-window f (d + 1) n)

  pub length-contents :
      (q : Cells A) (claimed : ℕ → A)
      → length (contents q claimed) ≡ q.enqueue_position - q.dequeue_position
  unfolding contents
  length-contents q claimed =
      length-window claimed q.dequeue_position (q.enqueue_position - q.dequeue_position)

  -- A write behind the window is not seen; one at its end extends it.
  window-update :
      (f : ℕ → A) (d n e : ℕ) (x : A) → d + n ≤ e → window (update f e x) d n ≡ window f d n
  unfolding window
  window-update f d zero e x h = refl
  window-update f d (suc n) e x h = ground (arith, window-update f (d + 1) n e x)

  window-snoc : (f : ℕ → A) (d n : ℕ) → window f d (suc n) ≡ window f d n ++ (f (d + n) ∷ [])
  unfolding window
  window-snoc f d zero = ground (arith, ap f at_start)
    where
      at_start : d + 0 ≡ d
      at_start = omega arith
  window-snoc f d (suc n) =
      ap (λ l. f d ∷ l) (window-snoc f (d + 1) n ∙ ap (λ k. window f (d + 1) n ++ (f k ∷ [])) shift)
    where
      shift : d + 1 + n ≡ d + suc n
      shift = omega arith

  -- One position more is claimed by a push of `x`.
  pub window-claim :
      (f : ℕ → A) (d e : ℕ) (x : A)
      → d ≤ e
      → window (update f e x) d (e + 1 - d) ≡ window f d (e - d) ++ (x ∷ [])
  window-claim f d e x h =
      ap (window (update f e x) d) count
      ∙ window-snoc (update f e x) d (e - d)
      ∙ ground (arith, window-update f d (e - d) e x)
    where
      count : e + 1 - d ≡ suc (e - d)
      count = omega arith

  -- The oldest position is claimed by a pop.
  pub window-uncons :
      (f : ℕ → A) (d e : ℕ) → d < e → window f d (e - d) ≡ f d ∷ window f (d + 1) (e - (d + 1))
  unfolding window
  window-uncons f d e h = ap (window f d) count
    where
      count : e - d ≡ suc (e - (d + 1))
      count = omega arith

  pub window-none : (f : ℕ → A) (d e : ℕ) → e ≤ d → window f d (e - d) ≡ []
  unfolding window
  window-none f d e h = ap (window f d) count
    where
      count : e - d ≡ 0
      count = omega arith
