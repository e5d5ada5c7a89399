-- ===== src/Signal/Handling.antt =====
-- What a delivered signal does, before and after `create`, `install` and `destroy`.
use bc_concurrency.Base.{
  ℕ, ◌≤◌, ◌<◌, ◌≡◌, ◌≢◌, ◌+◌, ◌==◌, if◌then◌else◌, ◌⊎◌, inl, inr, true, false, none, some, arith,
  Option-cases,
}
use native.Mathlib.Decide.{dec_lt}
use bc_concurrency.Allocator.{Allocator}
use bc_concurrency.Signal.{
  Kernel, IsKernel, World, deliver, create, destroy, install, should_stop, max_installed_signals,
}

module _ (k : Kernel) (a : Allocator) (w : World k a) where
  -- A handler that `create` returns has seen no signal, and sees one that is delivered then; what
  -- another handler has seen does not change by both.
  create-deliver :
      (p q : ℕ)
      → (create k a w).1 ≡ some p
      → q ≢ p
      → (should_stop k a (create k a w).0 p ≡ false)
        × (should_stop k a (deliver k a (create k a w).0) p ≡ true)
        × (should_stop k a (deliver k a (create k a w).0) q ≡ should_stop k a w q)
  unfolding create deliver should_stop
  create-deliver p q e ne = ground arith

  -- A signal delivered after the `destroy` of a handler leaves that handler's memory as it was.
  destroy-deliver : (p : ℕ) → (deliver k a (destroy k a w (some p))).handlers p ≡ w.handlers p
  unfolding destroy deliver
  destroy-deliver p = elim (Option-cases w.global) [
    | inl e ↦ ground arith
    | inr (g, e) ↦ ground arith
  ]

  -- Under the documented behaviour of sigaction, one call of `install` is one of two. At eight installed
  -- signals, or where sigaction refuses, it returns false and leaves every handler, the current one, and
  -- every disposition as they were. Otherwise it returns true; the handler then counts one signal
  -- more, with the signal's number and its disposition from before the call behind those that it
  -- had, its stop flag and every other handler are as they were, and the library's
  -- callback is installed for this signal and no other.
  pub install_cases :
      (laws : IsKernel k) (p n q i m : ℕ)
      → q ≢ p
      → (((max_installed_signals ≤ (w.handlers p).installed_signal_count)
            ⊎ ((k.sigaction w.kernel n k.callback).1 ≡ none))
          × ((install k a w p n).1 ≡ false)
          × ((install k a w p n).0.handlers ≡ w.handlers)
          × ((install k a w p n).0.global ≡ w.global)
          × (k.action (install k a w p n).0.kernel m ≡ k.action w.kernel m))
        ⊎ (((w.handlers p).installed_signal_count < max_installed_signals)
            × ((install k a w p n).1 ≡ true)
            × (((install k a w p n).0.handlers p).installed_signal_count
                ≡ (w.handlers p).installed_signal_count + 1)
            × (((install k a w p n).0.handlers p).installed_signal_numbers i ≡ (
                if (w.handlers p).installed_signal_count == i
                then n
                else (w.handlers p).installed_signal_numbers i))
            × (((install k a w p n).0.handlers p).previous_signal_actions i ≡ (
                if (w.handlers p).installed_signal_count == i
                then k.action w.kernel n
                else (w.handlers p).previous_signal_actions i))
            × (((install k a w p n).0.handlers p).should_stop_flag
                ≡ (w.handlers p).should_stop_flag)
            × ((install k a w p n).0.handlers q ≡ w.handlers q)
            × ((install k a w p n).0.global ≡ w.global)
            × (k.action (install k a w p n).0.kernel m
                ≡ (if n == m then k.callback else k.action w.kernel m)))
  unfolding install
  install_cases laws p n q i m ne =
      elim (dec_lt (w.handlers p).installed_signal_count max_installed_signals) [
        | no full ↦ inl (inl (omega arith), ground arith, ground arith, ground arith, ground arith)
        | yes room ↦ elim (Option-cases (k.sigaction w.kernel n k.callback).1) [
          | inl e ↦ inl (
            inr e,
            ground arith,
            ground arith,
            ground arith,
            ground (arith, laws.sigaction_none w.kernel n k.callback m e),
          )
          | inr (old, e) ↦
              let told = laws.sigaction_some w.kernel n k.callback old m e in
              inr (
                room,
                ground arith,
                ground arith,
                ground arith,
                ground (arith, told.0),
                ground arith,
                ground arith,
                ground arith,
                ground (arith, told.1),
              )
        ]
      ]
