-- ===== src/Signal/Tests.antt =====
-- A kernel that keeps its dispositions in a function, and the theorems on signals and sleep at
-- concrete inputs.
use bc_concurrency.Base.{
  ℕ, zero, suc, ◌*◌, ◌≤◌, ◌<◌, ◌≡◌, ◌⊎◌, refl, inl, inr, ◌+◌, ◌==◌, true, false, Option, none, some,
  leb, if◌then◌else◌, update, [], ◌∷◌, arith,
}
use bc_concurrency.Allocator.Bump.{empty_heap, bump_allocator}
use bc_concurrency.Signal.{
  Kernel, IsKernel, World, new_handler, max_installed_signals, create, destroy, install,
  install_all,
}
use bc_concurrency.Signal.Handling.{install_cases}
use bc_concurrency.Signal.Restore.{destroy_restores, twice_keeps_callback}
use bc_concurrency.Signal.Sleep.{
  Timespec, Nap, slept, interrupted, error, returned, duration, nap_loop, Asked, first, again, Ends,
  sleep_milliseconds, sleep_answers, sleep_returns,
}

abbrev change : (ℕ → ℕ) → ℕ → ℕ → (ℕ → ℕ) × Option ℕ
change s n new = if leb n 64 then (update s n new, some (s n)) else (s, none)

-- Signals 0 to 64 are accepted; action 7 is the library's callback, action 1 a former handler.
abbrev table_kernel : Kernel
table_kernel = record {
  State = ℕ → ℕ;
  Action = ℕ;
  action = λ s. s;
  sigaction = change;
  callback = 7;
  zero_action = 0;
}

old_answered :
    (s : ℕ → ℕ) (n new old m : ℕ)
    → (change s n new).1 ≡ some old
    → (old ≡ s n) × ((change s n new).0 m ≡ update s n new m)
old_answered s n new old m e = ground arith

refused_keeps : (s : ℕ → ℕ) (n new m : ℕ) → (change s n new).1 ≡ none → (change s n new).0 m ≡ s m
refused_keeps s n new m e = ground arith

change_accepts :
    (s t : ℕ → ℕ) (n new new' : ℕ) → (change s n new).1 ≡ none → (change t n new').1 ≡ none
change_accepts s t n new new' e = ground arith

table_kernel-IsKernel : IsKernel table_kernel
table_kernel-IsKernel = record {
  sigaction_some = old_answered;
  sigaction_none = refused_keeps;
  sigaction_accepts = change_accepts;
}

abbrev boot : World table_kernel bump_allocator
boot = record {
  heap = empty_heap;
  handlers = λ _. new_handler table_kernel bump_allocator;
  kernel = λ _. 1;
  global = none;
}

-- The world after `create`, whose handler is at 4096.
abbrev created : World table_kernel bump_allocator
unfolding create
created = (create table_kernel bump_allocator boot).0

abbrev fifteen : ℕ
fifteen = 15

install_cases_example :
    (((max_installed_signals ≤ (created.handlers 4096).installed_signal_count)
        ⊎ ((change created.kernel 15 7).1 ≡ none))
      × ((install table_kernel bump_allocator created 4096 15).1 ≡ false)
      × ((install table_kernel bump_allocator created 4096 15).0.handlers ≡ created.handlers)
      × ((install table_kernel bump_allocator created 4096 15).0.global ≡ created.global)
      × ((install table_kernel bump_allocator created 4096 15).0.kernel 15 ≡ created.kernel 15))
    ⊎ (((created.handlers 4096).installed_signal_count < max_installed_signals)
        × ((install table_kernel bump_allocator created 4096 15).1 ≡ true)
        × (((install table_kernel bump_allocator created 4096 15).0.handlers
              4096).installed_signal_count
            ≡ (created.handlers 4096).installed_signal_count + 1)
        × (((install table_kernel bump_allocator created 4096 15).0.handlers
                4096).installed_signal_numbers
              0
            ≡ (if (created.handlers 4096).installed_signal_count == 0
                then 15
                else (created.handlers 4096).installed_signal_numbers 0))
        × (((install table_kernel bump_allocator created 4096 15).0.handlers
                4096).previous_signal_actions
              0
            ≡ (if (created.handlers 4096).installed_signal_count == 0
                then created.kernel 15
                else (created.handlers 4096).previous_signal_actions 0))
        × (((install table_kernel bump_allocator created 4096 15).0.handlers 4096).should_stop_flag
            ≡ (created.handlers 4096).should_stop_flag)
        × ((install table_kernel bump_allocator created 4096 15).0.handlers 5 ≡ created.handlers 5)
        × ((install table_kernel bump_allocator created 4096 15).0.global ≡ created.global)
        × ((install table_kernel bump_allocator created 4096 15).0.kernel 15
            ≡ (if fifteen == 15 then 7 else created.kernel 15)))
install_cases_example =
    install_cases table_kernel bump_allocator created table_kernel-IsKernel 4096 15 5 0 15
      (omega arith)

destroy_restores_example :
    (destroy table_kernel bump_allocator
        (install_all table_kernel bump_allocator created 4096 (2 ∷ 15 ∷ [])).0
        (some 4096)).kernel
      15
    ≡ 1
unfolding create install_all install
destroy_restores_example =
    destroy_restores table_kernel bump_allocator table_kernel-IsKernel created 4096 (2 ∷ 15 ∷ [])
      refl (ground arith) refl 15

twice_keeps_callback_example :
    ((install_all table_kernel bump_allocator created 4096 (15 ∷ 15 ∷ [])).1 ≡ true)
    × ((destroy table_kernel bump_allocator
            (install_all table_kernel bump_allocator created 4096 (15 ∷ 15 ∷ [])).0
            (some 4096)).kernel
          15
        ≡ 7)
unfolding create
twice_keeps_callback_example =
    twice_keeps_callback table_kernel bump_allocator table_kernel-IsKernel created 4096 15 refl
      (λ e. ground arith)

abbrev a_while : ℕ
a_while = 1500

-- The first nap is interrupted half a second before its end, the second ends.
unfoldable naps : ℕ → Timespec → Nap
naps zero t = interrupted (record { tv_sec = 0; tv_nsec = 500000000 })
naps (suc i) t = slept

abbrev product : ℕ → ℕ → Option ℕ
product m n = some (m * n)

abbrev half : Timespec
half = record { tv_sec = 0; tv_nsec = 500000000 }

sleeps :
    (sleep_milliseconds naps (λ _. false) product 3 1500 ≡ some (returned false))
    × (sleep_milliseconds naps (λ _. true) product 3 1500 ≡ some (returned true))
unfolding sleep_milliseconds nap_loop naps
sleeps = (refl, refl)

-- The second nap is asked for the half second.
Asked-half : Asked naps (λ _. false) (duration 1500000000) 1 half
unfolding naps
Asked-half = again {j = 0} first refl refl refl

sleep_answers_example :
    ((a_while ≡ 0) × (returned true ≡ returned false))
    ⊎ (((0 < a_while) × (product 1500 1000000 ≡ none) × (returned true ≡ error))
        ⊎ ((nanoseconds : ℕ) × (j : ℕ) × (t : Timespec) × (0 < a_while)
            × (product 1500 1000000 ≡ some nanoseconds)
            × Asked naps (λ _. true) (duration nanoseconds) j t
            × Ends naps (λ _. true) j t (returned true)))
unfolding sleep_milliseconds nap_loop naps
sleep_answers_example = sleep_answers naps (λ _. true) product 3 1500 (returned true) refl

sleep_returns_example : sleep_milliseconds naps (λ _. false) product 7 1500 ≡ some (returned false)
unfolding naps
sleep_returns_example =
    sleep_returns naps (λ _. false) product 5 1500 1500000000 1 half (returned false) (omega arith)
      refl Asked-half (inr (refl, inl (refl, refl)))
