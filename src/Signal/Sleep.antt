-- ===== src/Signal/Sleep.antt =====
-- `bc_concurrency_sleep_milliseconds`. The kernel's answers to `nanosleep` and the reads of the stop
-- flag are parameters, by the number of the call.
use native.Mathlib.Decide.{ℕ_discrete}
use bc_concurrency.Base.{
  ℕ, zero, suc, ◌+◌, ◌/◌, ◌%◌, ◌<◌, ◌≡◌, ◌⊎◌, inl, inr, refl, ap, ◌∙◌, Bool, true, false, ◌||◌,
  Option, none, some, ltb, ◌==◌, if◌then◌else◌, arith, Bool-cases, Option-cases,
}

-- `struct timespec`
pub record Timespec : Type 0 where
  pub tv_sec : ℕ
  pub tv_nsec : ℕ

-- What `nanosleep` answers: 0, EINTR with the time that remains, or another error.
pub data Nap : Type 0 where
  slept : Nap
  interrupted : Timespec → Nap
  failed : Nap

-- What the call answers: false, or true with `*out_was_interrupted`.
pub data Answer : Type 0 where
  error : Answer
  returned : (was_interrupted : Bool) → Answer

abbrev pub is_left : Timespec → Bool
is_left t = ltb 0 t.tv_sec || ltb 0 t.tv_nsec

-- The duration in seconds and nanoseconds.
abbrev pub duration : ℕ → Timespec
duration nanoseconds = record {
  tv_sec = nanoseconds / 1000000000;
  tv_nsec = nanoseconds % 1000000000;
}

module _ (nanosleep : ℕ → Timespec → Nap) (stopped : ℕ → Bool) where
  -- The loop, from its `i`-th round on. `stopped i` is `signal_handler != NULL` and the flag not 0.
  unfoldable pub nap_loop : ℕ → ℕ → Timespec → Option Answer
  nap_loop zero i remaining = none
  nap_loop (suc fuel) i remaining =
      let round : Option Answer = elim (nanosleep i remaining) [
        | slept ↦ some (returned false)
        | failed ↦ some error
        | interrupted rest ↦
            let again = nap_loop fuel (i + 1) rest in
            if stopped i then some (returned true) else again
      ] in
      if is_left remaining then round else some (returned false)

  -- bc_core_safe_multiply, of bc-core: `none` where it returns false.
  module _ (safe_multiply : ℕ → ℕ → Option ℕ) where
    unfoldable pub sleep_milliseconds : ℕ → ℕ → Option Answer
    sleep_milliseconds fuel milliseconds =
        if milliseconds == 0
        then some (returned false)
        else elim (safe_multiply milliseconds 1000000) [
          | none ↦ some error
          | some nanoseconds ↦ nap_loop fuel 0 (duration nanoseconds)
        ]

Nap-cases : (n : Nap) → (n ≡ slept) ⊎ (n ≡ failed) ⊎ ((rest : Timespec) × (n ≡ interrupted rest))
Nap-cases slept = inl refl
Nap-cases failed = inr (inl refl)
Nap-cases (interrupted rest) = inr (inr (rest, refl))

-- The naps that a sleep goes through: `Asked start j t` says that after `j` naps that were interrupted with
-- the stop flag not set, the time that remains of `start` is `t`.
pub data Asked (nanosleep : ℕ → Timespec → Nap) (stopped : ℕ → Bool) (start : Timespec)
    : ℕ → Timespec → Type 0 where
  first : Asked nanosleep stopped start 0 start
  again :
      {j : ℕ} {t rest : Timespec}
      → Asked nanosleep stopped start j t
      → is_left t ≡ true
      → nanosleep j t ≡ interrupted rest
      → stopped j ≡ false
      → Asked nanosleep stopped start (j + 1) rest

module _ (nanosleep : ℕ → Timespec → Nap) (stopped : ℕ → Bool) where
  -- How the sleep ends at nap `j`, for which `t` remains.
  abbrev pub Ends : ℕ → Timespec → Answer → Type 0
  Ends j t r =
      ((t.tv_sec ≡ 0) × (t.tv_nsec ≡ 0) × (r ≡ returned false))
      ⊎ ((is_left t ≡ true)
          × (((nanosleep j t ≡ slept) × (r ≡ returned false))
              ⊎ (((nanosleep j t ≡ failed) × (r ≡ error))
                  ⊎ ((rest : Timespec) × (nanosleep j t ≡ interrupted rest)
                      × (stopped j ≡ true)
                      × (r ≡ returned true)))))

  nap_loop-Ends :
      (start : Timespec) (fuel i : ℕ) (t : Timespec) (r : Answer)
      → Asked nanosleep stopped start i t
      → nap_loop nanosleep stopped fuel i t ≡ some r
      → (j : ℕ) × (u : Timespec) × Asked nanosleep stopped start j u × Ends j u r
  unfolding nap_loop
  nap_loop-Ends start zero i t r before e = cc
  nap_loop-Ends start (suc fuel) i t r before e = elim (Bool-cases (is_left t)) [
    | inr over ↦ (i, t, before, inl (ground arith, ground arith, ground arith))
    | inl more ↦ elim (Nap-cases (nanosleep i t)) [
      | inl n ↦ (i, t, before, inr (more, inl (n, ground arith)))
      | inr (inl n) ↦ (i, t, before, inr (more, inr (inl (n, ground arith))))
      | inr (inr (rest, n)) ↦ elim (Bool-cases (stopped i)) [
        | inl stop ↦ (i, t, before, inr (more, inr (inr (rest, n, stop, ground arith))))
        | inr go ↦ nap_loop-Ends start fuel (i + 1) rest r (again before more n go) (ground arith)
      ]
    ]
  ]

  -- The rounds up to nap `j` use `j` of the fuel.
  nap_loop-Asked :
      (start : Timespec) (fuel j : ℕ) (t : Timespec)
      → Asked nanosleep stopped start j t
      → nap_loop nanosleep stopped (j + fuel) 0 start ≡ nap_loop nanosleep stopped fuel j t
  unfolding nap_loop
  nap_loop-Asked start fuel j t first = ap (λ k. nap_loop nanosleep stopped k 0 start) (omega arith)
  nap_loop-Asked start fuel j rest (again {j = i} {t = t} before more n go) =
      ap (λ k. nap_loop nanosleep stopped k 0 start) (omega arith)
      ∙ nap_loop-Asked start (suc fuel) i t before
      ∙ ground arith

  nap_loop-end :
      (fuel j : ℕ) (t : Timespec) (r : Answer)
      → Ends j t r
      → nap_loop nanosleep stopped (suc fuel) j t ≡ some r
  unfolding nap_loop
  nap_loop-end fuel j t r e = ground arith

  module _ (safe_multiply : ℕ → ℕ → Option ℕ) where
    -- What a sleep that returns within the fuel answers. One of 0 milliseconds answers true, not
    -- interrupted. Any other asks safe_multiply for the nanoseconds, and answers false if that
    -- fails. Else it ends at some nap that it comes to by
    -- interrupted naps with the stop flag not set, each for the time that the one before has left:
    -- not interrupted where no time is left or the nap runs to its end; false where the nap
    -- fails; and interrupted where the nap is and the stop flag is set.
    pub sleep_answers :
        (fuel milliseconds : ℕ) (r : Answer)
        → sleep_milliseconds nanosleep stopped safe_multiply fuel milliseconds ≡ some r
        → ((milliseconds ≡ 0) × (r ≡ returned false))
          ⊎ (((0 < milliseconds) × (safe_multiply milliseconds 1000000 ≡ none) × (r ≡ error))
              ⊎ ((nanoseconds : ℕ) × (j : ℕ) × (t : Timespec) × (0 < milliseconds)
                  × (safe_multiply milliseconds 1000000 ≡ some nanoseconds)
                  × Asked nanosleep stopped (duration nanoseconds) j t
                  × Ends j t r))
    unfolding sleep_milliseconds
    sleep_answers fuel milliseconds r e = elim (ℕ_discrete milliseconds 0) [
      | yes zero_ ↦ inl (zero_, ground arith)
      | no more ↦ elim (Option-cases (safe_multiply milliseconds 1000000)) [
        | inl overflow ↦ inr (inl (omega (arith, more), overflow, ground arith))
        | inr (p, m) ↦
            let (j, t, asked, ends) =
              nap_loop-Ends (duration p) fuel 0 (duration p) r first (ground arith) in
            inr (inr (p, j, t, omega (arith, more), m, asked, ends))
      ]
    ]

    -- A sleep of more than 0 milliseconds, whose nanoseconds safe_multiply gives, and that comes to a nap
    -- `j` where it ends, returns that end's answer, for any fuel above `j`.
    pub sleep_returns :
        (fuel milliseconds nanoseconds j : ℕ) (t : Timespec) (r : Answer)
        → 0 < milliseconds
        → safe_multiply milliseconds 1000000 ≡ some nanoseconds
        → Asked nanosleep stopped (duration nanoseconds) j t
        → Ends j t r
        → sleep_milliseconds nanosleep stopped safe_multiply (j + suc fuel) milliseconds ≡ some r
    unfolding sleep_milliseconds
    sleep_returns fuel milliseconds nanoseconds j t r pos m asked ends = ground (
      arith,
      nap_loop-Asked (duration nanoseconds) (suc fuel) j t asked ∙ nap_loop-end fuel j t r ends,
    )
