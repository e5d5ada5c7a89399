-- ===== src/Platform/Cores.antt =====
-- The count of cores against the choice of a core's CPU.
use bc_concurrency.Base.{
  ℕ, zero, suc, ◌+◌, ◌≤◌, ◌<◌, ◌≡◌, ◌≢◌, ◌⊎◌, ◌↔◌, inl, inr, refl, Bool, true, false, none, some,
  update, arith,
}
use native.Mathlib.Decide.{ℕ_discrete}
use bc_concurrency.Platform.{
  Reading, unprintable, missing, garbled, negative, core, Look, stop, skip, fresh, inspect,
  max_cpus, count_cores, find_cpu, listed_cores, cpu_of_core, physical_core_count,
}

Look-cases : (l : Look) → (l ≡ stop) ⊎ (l ≡ skip) ⊎ ((id : ℕ) × (l ≡ fresh id))
Look-cases stop = inl refl
Look-cases skip = inr (inl refl)
Look-cases (fresh id) = inr (inr (id, refl))

inspect-fresh :
    (seen : ℕ → Bool) (r : Reading) (id : ℕ)
    → inspect seen r ≡ fresh id
    → (r ≡ core id) × (seen id ≡ false) × (id < max_cpus)
unfolding inspect
inspect-fresh seen unprintable id e = cc
inspect-fresh seen missing id e = cc
inspect-fresh seen garbled id e = cc
inspect-fresh seen negative id e = cc
inspect-fresh seen (core i) id e = ground arith

module _ (topology : ℕ → Reading) where
  abbrev at : (ℕ → Bool) → ℕ → Look
  at seen c = inspect seen (topology c)

  count_cores-bounds :
      (n c : ℕ) (seen : ℕ → Bool) (k : ℕ)
      → (k ≤ count_cores topology n c seen k) × (count_cores topology n c seen k ≤ k + n)
  unfolding count_cores
  count_cores-bounds zero c seen k = omega arith
  count_cores-bounds (suc n) c seen k = elim (Look-cases (at seen c)) [
    | inl e ↦ ground arith
    | inr (inl e) ↦ ground (arith, count_cores-bounds n (c + 1) seen k)
    | inr (inr (id, e)) ↦ ground (arith, count_cores-bounds n (c + 1) (update seen id true) (k + 1))
  ]

  -- A core at or after the `found` ones is chosen exactly if it is counted.
  find-count :
      (n c : ℕ) (seen : ℕ → Bool) (found index : ℕ)
      → found ≤ index
      → (find_cpu topology n c seen found index ≡ none)
        ↔ (count_cores topology n c seen found ≤ index)
  unfolding find_cpu count_cores
  find-count zero c seen found index h = (λ e. h, λ k. refl)
  find-count (suc n) c seen found index h = elim (Look-cases (at seen c)) [
    | inl e ↦ ground arith
    | inr (inl e) ↦ rw (e, find_cpu, count_cores) (find-count n (c + 1) seen found index h)
    | inr (inr (id, e)) ↦ elim (ℕ_discrete found index) [
      | yes hit ↦ (
        λ z. ground arith,
        λ k. ground (arith, count_cores-bounds n (c + 1) (update seen id true) (found + 1)),
      )
      | no miss ↦
          let ih = find-count n (c + 1) (update seen id true) (found + 1) index (omega arith) in
          (λ z. ground (arith, ih.0), λ k. ground (arith, ih.1))
    ]
  ]

  -- The CPU chosen carries a core that had not been met.
  find_cpu-core :
      (n c : ℕ) (seen : ℕ → Bool) (found index cpu : ℕ)
      → find_cpu topology n c seen found index ≡ some cpu
      → (id : ℕ) × (topology cpu ≡ core id) × (seen id ≡ false)
  unfolding find_cpu
  find_cpu-core zero c seen found index cpu e = cc
  find_cpu-core (suc n) c seen found index cpu e = elim (Look-cases (at seen c)) [
    | inl l ↦ ground arith
    | inr (inl l) ↦ find_cpu-core n (c + 1) seen found index cpu (ground arith)
    | inr (inr (id, l)) ↦ elim (ℕ_discrete found index) [
      | yes hit ↦ (
        id,
        ground (arith, inspect-fresh seen (topology c) id l),
        ground (arith, inspect-fresh seen (topology c) id l),
      )
      | no miss ↦
          let (other, t, s) =
            find_cpu-core n (c + 1) (update seen id true) (found + 1) index cpu (ground arith) in
          (other, t, ground arith)
    ]
  ]

  -- Two cores' CPUs carry different cores.
  find_cpu-distinct :
      (n c : ℕ) (seen : ℕ → Bool) (found i j cpu cpu' : ℕ)
      → found ≤ i
      → i < j
      → find_cpu topology n c seen found i ≡ some cpu
      → find_cpu topology n c seen found j ≡ some cpu'
      → topology cpu ≢ topology cpu'
  unfolding find_cpu
  find_cpu-distinct zero c seen found i j cpu cpu' h lt e e' = cc
  find_cpu-distinct (suc n) c seen found i j cpu cpu' h lt e e' = elim (Look-cases (at seen c)) [
    | inl l ↦ ground arith
    | inr (inl l) ↦
        find_cpu-distinct n (c + 1) seen found i j cpu cpu' h lt (ground arith) (ground arith)
    | inr (inr (id, l)) ↦ elim (ℕ_discrete found i) [
      | yes hit ↦
          let (other, t, s) =
            find_cpu-core n (c + 1) (update seen id true) (found + 1) j cpu' (ground arith) in
          ground (arith, inspect-fresh seen (topology c) id l)
      | no miss ↦
          find_cpu-distinct n (c + 1) (update seen id true) (found + 1) i j cpu cpu' (omega arith)
            lt (ground arith) (ground arith)
    ]
  ]

  -- No CPU is found for physical core `index` exactly if `index` is not below the number of cores that
  -- the topology files name.
  pub cpu_of_core-listed :
      (index : ℕ) → (cpu_of_core topology index ≡ none) ↔ (listed_cores topology ≤ index)
  unfolding cpu_of_core listed_cores
  cpu_of_core-listed index = find-count max_cpus 0 (λ _. false) 0 index (omega arith)

  -- The CPUs found for two different core indices carry different core ids.
  pub cpu_of_core-distinct :
      (i j cpu cpu' : ℕ)
      → i < j
      → cpu_of_core topology i ≡ some cpu
      → cpu_of_core topology j ≡ some cpu'
      → (id id' : ℕ) × (topology cpu ≡ core id) × (topology cpu' ≡ core id') × (id ≢ id')
  unfolding cpu_of_core
  cpu_of_core-distinct i j cpu cpu' lt e e' =
      let (id, t, s) = find_cpu-core max_cpus 0 (λ _. false) 0 i cpu e in
      let (id', t', s') = find_cpu-core max_cpus 0 (λ _. false) 0 j cpu' e' in
      let apart = find_cpu-distinct max_cpus 0 (λ _. false) 0 i j cpu cpu' (omega arith) lt e e' in
      (id, id', t, t', λ q. apart (cc))

  -- The physical core count is the CPU count where no topology file names a core, and otherwise it is
  -- from 1 to 1024.
  physical_core_count_bounds :
      (cpu_count : ℕ)
      → ((listed_cores topology ≡ 0) × (physical_core_count topology cpu_count ≡ cpu_count))
        ⊎ ((0 < physical_core_count topology cpu_count)
            × (physical_core_count topology cpu_count ≤ max_cpus))
  unfolding physical_core_count listed_cores
  physical_core_count_bounds cpu_count =
      ground (arith, count_cores-bounds max_cpus 0 (λ _. false) 0)
