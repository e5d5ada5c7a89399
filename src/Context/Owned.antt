-- ===== src/Context/Owned.antt =====
-- The blocks that a context owns.
use bc_concurrency.Base.{
  ℕ, ◌≡◌, sym, ◌∙◌, fun_ext, Bool, true, false, none, some, List, [], ◌∷◌, ◌++◌, arith, update,
}
use mathlib.Core.Path.{subst}
use bc_concurrency.Allocator.{Allocator, IsAllocator}

-- `live` is `before` and the blocks `ps`, which are different.
unfoldable pub Held : (ℕ → Bool) → (ℕ → Bool) → List ℕ → Type 0
Held before live [] = live ≡ before
Held before live (p ∷ ps) = (live p ≡ true) × Held before (update live p false) ps

swap_update :
    (f : ℕ → Bool) (p q : ℕ) → update (update f p false) q false ≡ update (update f q false) p false
swap_update f p q = fun_ext (λ r. ground arith)

-- Any of the blocks may be looked at first.
pub Held-front :
    (before live : ℕ → Bool) (ps : List ℕ) (p : ℕ) (qs : List ℕ)
    → Held before live (ps ++ p ∷ qs)
    → Held before live (p ∷ ps ++ qs)
unfolding Held
Held-front before live [] p qs h = h
Held-front before live (r ∷ ps) p qs h =
    let (lp, rest) = Held-front before (update live r false) ps p qs h.1 in
    (
      ground arith,
      (ground arith, subst (λ f. Held before f (ps ++ qs)) (swap_update live r p) rest),
    )

module _ (a : Allocator) (laws : IsAllocator a) (before : ℕ → Bool) where
  pub Held-allocate :
      (h : a.Heap) (n p : ℕ) (ps : List ℕ)
      → (a.allocate h n).1 ≡ some p
      → Held before (a.live h) ps
      → Held before (a.live (a.allocate h n).0) (p ∷ ps)
  unfolding Held
  Held-allocate h n p ps e v = (
    laws.allocate_live h n p p e ∙ ground arith,
    subst (λ f. Held before f ps)
        (fun_ext (λ q. ground (arith, laws.allocate_live h n p q e, laws.allocate_fresh h n p e)))
        v,
  )

  pub Held-none :
      (h : a.Heap) (n : ℕ) (ps : List ℕ)
      → (a.allocate h n).1 ≡ none
      → Held before (a.live h) ps
      → Held before (a.live (a.allocate h n).0) ps
  Held-none h n ps e v =
      subst (λ f. Held before f ps) (fun_ext (λ q. sym (laws.allocate_none h n q e))) v

  pub Held-free :
      (h : a.Heap) (p : ℕ) (ps : List ℕ)
      → Held before (a.live h) (p ∷ ps)
      → Held before (a.live (a.free h p)) ps
  unfolding Held
  Held-free h p ps v = subst (λ f. Held before f ps) (fun_ext (λ q. sym (laws.free_live h p q))) v.1
