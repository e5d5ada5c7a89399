-- ===== src/Platform/Tests.antt =====
-- A topology of two cores with two hardware threads each, and the theorems on it.
use bc_concurrency.Base.{
  ℕ, ◌%◌, ltb, ◌==◌, if◌then◌else◌, ◌≤◌, ◌≡◌, ◌≢◌, ◌↔◌, refl, true, none, some, arith,
}
use bc_concurrency.Platform.{
  Reading, missing, core, inspect, count_cores, find_cpu, listed_cores, cpu_of_core,
  physical_core_count, pin_current_thread, get_cpu_count,
}
use bc_concurrency.Platform.Cores.{cpu_of_core-listed, cpu_of_core-distinct}

-- CPUs 0 and 2 on core 4, CPUs 1 and 3 on core 9, and no more CPUs.
abbrev two_cores : ℕ → Reading
two_cores c = if ltb c 4 then (if c % 2 == 0 then core 4 else core 9) else missing

choices :
    (physical_core_count two_cores 4 ≡ 2)
    × (cpu_of_core two_cores 0 ≡ some 0)
    × (cpu_of_core two_cores 1 ≡ some 1)
    × (cpu_of_core two_cores 2 ≡ none)
    × (pin_current_thread two_cores (λ _. true) 1 ≡ true)
    × (get_cpu_count none ≡ 1)
unfolding physical_core_count listed_cores count_cores cpu_of_core find_cpu inspect
    pin_current_thread get_cpu_count
choices = (refl, refl, refl, refl, refl, refl)

cpu_of_core-listed_example : (cpu_of_core two_cores 2 ≡ none) ↔ (listed_cores two_cores ≤ 2)
cpu_of_core-listed_example = cpu_of_core-listed two_cores 2

cpu_of_core-distinct_example :
    (id id' : ℕ) × (two_cores 0 ≡ core id) × (two_cores 1 ≡ core id') × (id ≢ id')
unfolding cpu_of_core find_cpu inspect
cpu_of_core-distinct_example = cpu_of_core-distinct two_cores 0 1 0 1 (omega arith) refl refl
