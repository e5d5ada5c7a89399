-- ===== src/Signal/Restore.antt =====
-- Whether `destroy` puts the dispositions back that `install` replaced.
use bc_concurrency.Base.{
  Bool, ℕ, zero, suc, ◌+◌, ◌≤◌, ◌<◌, ◌≡◌, ◌≢◌, ◌⊎◌, inl, inr, refl, sym, ap, ◌∙◌, true, none, some,
  update_cases, arith, Option-cases, Bool-cases, List, [], ◌∷◌,
}
use mathlib.Core.Path.{subst, subst₂}
use native.Mathlib.Decide.{ℕ_discrete}
use bc_concurrency.Allocator.{Allocator}
use bc_concurrency.Signal.{
  Kernel, IsKernel, Handler, World, destroy, restore, install, install_all, installed,
}

abbrev pub NotIn : ℕ → List ℕ → Type 0
NotIn n [] = Unit
NotIn n (m ∷ ms) = (n ≢ m) × NotIn n ms

abbrev pub Distinct : List ℕ → Type 0
Distinct [] = Unit
Distinct (n ∷ ns) = NotIn n ns × Distinct ns

module _ (k : Kernel) (a : Allocator) (laws : IsKernel k) where
  Accepted : k.State → ℕ → Type 0
  Accepted s n = (new : k.Action) → (k.sigaction s n new).1 ≢ none

  -- What a handler knows of the dispositions `s₀` that it found: it has recorded those of its
  -- signals, and the others are as they were.
  record Recorded (s₀ s : k.State) (h : Handler k a) : Type 0 where
    saved :
        (j : ℕ)
        → j < h.installed_signal_count
        → h.previous_signal_actions j ≡ k.action s₀ (h.installed_signal_numbers j)
    taken :
        (j : ℕ)
        → j < h.installed_signal_count
        → (t : k.State) (new : k.Action)
        → (k.sigaction t (h.installed_signal_numbers j) new).1 ≢ none
    others :
        (m : ℕ)
        → (k.action s m ≡ k.action s₀ m)
          ⊎ ((j : ℕ) × (j < h.installed_signal_count) × (h.installed_signal_numbers j ≡ m))

  restore_lem :
      (s₀ : k.State) (h : Handler k a) (n i : ℕ) (s : k.State)
      → ((j : ℕ)
          → j < i + n
          → h.previous_signal_actions j ≡ k.action s₀ (h.installed_signal_numbers j))
      → ((j : ℕ)
          → j < i + n
          → (t : k.State) (new : k.Action)
          → (k.sigaction t (h.installed_signal_numbers j) new).1 ≢ none)
      → ((m : ℕ)
          → (k.action s m ≡ k.action s₀ m)
            ⊎ ((j : ℕ) × (i ≤ j) × (j < i + n) × (h.installed_signal_numbers j ≡ m)))
      → (m : ℕ) → k.action (restore k a h n i s) m ≡ k.action s₀ m
  unfolding restore
  restore_lem s₀ h zero i s saved taken others m = ground (arith, others m)
  restore_lem s₀ h (suc n) i s saved taken others m =
      restore_lem s₀ h n (i + 1) s' (λ j lt. saved j (omega arith)) (λ j lt. taken j (omega arith))
        others' m
    where
      number : ℕ
      number = h.installed_signal_numbers i

      new : k.Action
      new = h.previous_signal_actions i

      s' : k.State
      s' = (k.sigaction s number new).0

      others' :
          (m : ℕ)
          → (k.action s' m ≡ k.action s₀ m)
            ⊎ ((j : ℕ) × (i + 1 ≤ j) × (j < i + 1 + n) × (h.installed_signal_numbers j ≡ m))
      others' m = elim (Option-cases (k.sigaction s number new).1) [
        | inl e ↦ absurd (taken i (omega arith) s new e)
        | inr (old, e) ↦ elim (ℕ_discrete number m) [
          | yes same ↦ inl (
              ground
                (arith, laws.sigaction_some s number new old m e, saved i, ap (k.action s₀) same))
          | no other ↦ elim (others m) [
            | inl q ↦ inl (ground (arith, laws.sigaction_some s number new old m e))
            | inr (j, lo, hi, q) ↦
                let later : i ≢ j = λ e. other (ap h.installed_signal_numbers e ∙ q) in
                inr (j, omega arith, omega arith, q)
          ]
        ]
      ]

  -- A signal that the handler does not hold.
  abbrev Fresh : Handler k a → ℕ → Type 0
  Fresh h n = (j : ℕ) → j < h.installed_signal_count → h.installed_signal_numbers j ≢ n

  abbrev AllFresh : Handler k a → List ℕ → Type 0
  AllFresh h [] = Unit
  AllFresh h (n ∷ ns) = Fresh h n × AllFresh h ns

  installed-Recorded :
      (s₀ s : k.State) (h : Handler k a) (n : ℕ) (old : k.Action)
      → Recorded s₀ s h
      → Fresh h n
      → (k.sigaction s n k.callback).1 ≡ some old
      → Recorded s₀ (k.sigaction s n k.callback).0 (installed k a h n old)
  installed-Recorded s₀ s h n old r fresh e = record {
    saved = λ j lt. elim (ℕ_discrete h.installed_signal_count j) [
      | yes here ↦ ground (arith, laws.sigaction_some s n k.callback old n e, r.others n, not_held)
      | no there ↦ ground (arith, r.saved j)
    ];
    taken = λ j lt t new.
        update_cases (λ x. (k.sigaction t x new).1 ≢ none) h.installed_signal_numbers
          h.installed_signal_count n j
          (λ here c. let refused = laws.sigaction_accepts t s n new k.callback c in cc)
          (λ there. r.taken j (omega arith) t new);
    others = λ m. elim (ℕ_discrete n m) [
      | yes same ↦ inr (h.installed_signal_count, omega arith, ground arith)
      | no other ↦ elim (r.others m) [
        | inl q ↦ inl (ground (arith, laws.sigaction_some s n k.callback old m e))
        | inr (j, lt, q) ↦ inr (j, omega arith, ground arith)
      ]
    ];
  }
    where
      not_held : k.action s n ≡ k.action s₀ n
      not_held = elim (r.others n) [ inl q ↦ q | inr (j, lt, q) ↦ absurd (fresh j lt q) ]

  install_success :
      (w : World k a) (p n : ℕ)
      → (install k a w p n).1 ≡ true
      → (old : k.Action) × ((k.sigaction w.kernel n k.callback).1 ≡ some old)
        × ((install k a w p n).0.kernel ≡ (k.sigaction w.kernel n k.callback).0)
        × ((install k a w p n).0.handlers p ≡ installed k a (w.handlers p) n old)
  unfolding install
  install_success w p n done = elim (Option-cases (k.sigaction w.kernel n k.callback).1) [
    | inl e ↦ ground arith
    | inr (old, e) ↦ (old, e, ground arith, ground arith)
  ]

  fresh_after :
      (h h' : Handler k a) (n : ℕ) (old : k.Action) (ns : List ℕ)
      → h' ≡ installed k a h n old
      → NotIn n ns
      → AllFresh h ns
      → AllFresh h' ns
  fresh_after h h' n old [] e out f = tt
  fresh_after h h' n old (m ∷ ms) e out f =
      (λ j lt q. ground (arith, f.0 j, out.0), fresh_after h h' n old ms e out.1 f.1)

  install_all-Recorded :
      (s₀ : k.State) (ns : List ℕ) (w : World k a) (p : ℕ)
      → Distinct ns
      → Recorded s₀ w.kernel (w.handlers p)
      → AllFresh (w.handlers p) ns
      → (install_all k a w p ns).1 ≡ true
      → Recorded s₀ (install_all k a w p ns).0.kernel ((install_all k a w p ns).0.handlers p)
  unfolding install_all
  install_all-Recorded s₀ [] w p d r f done = r
  install_all-Recorded s₀ (n ∷ ns) w p d r f done = elim (Bool-cases (install k a w p n).1) [
    | inr no_ ↦ ground arith
    | inl ok ↦
        let (old, e, kernel, handler) = install_success w p n ok in
        let w' = (install k a w p n).0 in
        let r' : Recorded s₀ w'.kernel (w'.handlers p) =
          subst₂ (Recorded s₀) (sym kernel) (sym handler)
            (installed-Recorded s₀ w.kernel (w.handlers p) n old r f.0 e) in
        rw (ok, install_all)
          (install_all-Recorded s₀ ns w' p d.1 r'
            (fresh_after (w.handlers p) (w'.handlers p) n old ns handler d.0 f.1) (ground arith))
  ]

  all_fresh : (h : Handler k a) (ns : List ℕ) → h.installed_signal_count ≡ 0 → AllFresh h ns
  all_fresh h [] z = tt
  all_fresh h (n ∷ ns) z = (λ j lt. absurd (omega arith), all_fresh h ns z)

  -- Under the documented behaviour of sigaction: a handler that holds no signal, on which pairwise
  -- different signals are installed with success, leaves every disposition of the process, when it
  -- is destroyed, as it was before the first of them.
  pub destroy_restores :
      (w : World k a) (p : ℕ) (ns : List ℕ)
      → (w.handlers p).installed_signal_count ≡ 0
      → Distinct ns
      → (install_all k a w p ns).1 ≡ true
      → (m : ℕ)
      → k.action (destroy k a (install_all k a w p ns).0 (some p)).kernel m ≡ k.action w.kernel m
  unfolding destroy
  destroy_restores w p ns z d done m =
      restore_lem w.kernel h h.installed_signal_count 0 w'.kernel (λ j lt. r.saved j (omega arith))
        (λ j lt. r.taken j (omega arith))
        (λ m. elim (r.others m) [
          | inl q ↦ inl q
          | inr (j, lt, q) ↦ inr (j, omega arith, omega arith, q)
        ])
        m
    where
      w' : World k a
      w' = (install_all k a w p ns).0

      h : Handler k a
      h = w'.handlers p

      r : Recorded w.kernel w'.kernel h
      r =
          install_all-Recorded w.kernel ns w p d
            (record {
              saved = λ j lt. absurd (omega arith);
              taken = λ j lt. absurd (omega arith);
              others = λ m. inl refl;
            })
            (all_fresh (w.handlers p) ns z) done

  -- The second of two signals is restored last.
  restore_two :
      (h : Handler k a) (s : k.State) (n : ℕ) (new : k.Action)
      → h.installed_signal_count ≡ 2
      → h.installed_signal_numbers 1 ≡ n
      → h.previous_signal_actions 1 ≡ new
      → ((t : k.State) (x : k.Action) → (k.sigaction t n x).1 ≢ none)
      → k.action (restore k a h h.installed_signal_count 0 s) n ≡ new
  unfolding restore
  restore_two h s n new two number previous taken = rw (two, restore) (rw (number, previous) last)
    where
      t : k.State
      t = (k.sigaction s (h.installed_signal_numbers 0) (h.previous_signal_actions 0)).0

      last : k.action (k.sigaction t n new).0 n ≡ new
      last = elim (Option-cases (k.sigaction t n new).1) [
        | inl e ↦ absurd (taken t new e)
        | inr (old, e) ↦ ground (arith, laws.sigaction_some t n new old n e)
      ]

  -- An install below eight signals succeeds where sigaction accepts the number.
  install_accepted :
      (w v : World k a) (p n : ℕ)
      → (w.handlers p).installed_signal_count < 8
      → (k.sigaction v.kernel n k.callback).1 ≢ none
      → (install k a w p n).1 ≡ true
  unfolding install
  install_accepted w v p n room taken = elim (Option-cases (k.sigaction w.kernel n k.callback).1) [
    | inl e ↦ absurd (taken (laws.sigaction_accepts w.kernel v.kernel n k.callback k.callback e))
    | inr (old, e) ↦ ground arith
  ]

  -- Under the documented behaviour of sigaction, for a handler that holds no signal and a signal number
  -- that sigaction accepts: installing that signal twice succeeds, and `destroy` then leaves the
  -- library's own callback installed for it.
  pub twice_keeps_callback :
      (w : World k a) (p n : ℕ)
      → (w.handlers p).installed_signal_count ≡ 0
      → (k.sigaction w.kernel n k.callback).1 ≢ none
      → ((install_all k a w p (n ∷ n ∷ [])).1 ≡ true)
        × (k.action (destroy k a (install_all k a w p (n ∷ n ∷ [])).0 (some p)).kernel n
            ≡ k.callback)
  unfolding install_all destroy
  twice_keeps_callback w p n z taken =
      let w₁ = (install k a w p n).0 in
      let w₂ = (install k a w₁ p n).0 in
      let first : (install k a w p n).1 ≡ true =
        install_accepted w w p n (omega (arith, z)) taken in
      let (old₁, e₁, kernel₁, handler₁) = install_success w p n first in
      let second : (install k a w₁ p n).1 ≡ true =
        install_accepted w₁ w p n (ground (arith, handler₁)) taken in
      let (old₂, e₂, kernel₂, handler₂) = install_success w₁ p n second in
      let ours : old₂ ≡ k.callback = ground (
        arith,
        laws.sigaction_some w.kernel n k.callback old₁ n e₁,
        laws.sigaction_some w₁.kernel n k.callback old₂ n e₂,
      ) in
      let state : install_all k a w p (n ∷ n ∷ []) ≡ (w₂, true) = ground arith in
      (
        ap (λ (r : World k a × Bool). r.1) state,
        subst (λ (r : World k a × Bool). k.action (destroy k a r.0 (some p)).kernel n ≡ k.callback)
            (sym state)
            (restore_two (w₂.handlers p) w₂.kernel n k.callback (ground arith) (ground arith)
              (ground arith) (λ t x c. taken (laws.sigaction_accepts t w.kernel n x k.callback c))),
      )
