-- ===== src/Platform.antt =====
-- src/platform/bc_concurrency_platform.c: the count of physical cores, and the choice of the CPU
-- that a thread is pinned to. What the kernel says is a parameter.
pub mod Cores
mod Tests
use bc_concurrency.Base.{
  ℕ, zero, suc, ◌+◌, Bool, true, false, ◌&&◌, not, Option, none, some, ltb, ◌==◌, if◌then◌else◌,
  update,
}

-- BC_CONCURRENCY_MAX_CPUS
abbrev pub max_cpus : ℕ
max_cpus = 1024

-- What the two loops meet at a CPU: the path does not fit (snprintf), the topology file is not there
-- (fopen), it holds no number or a negative one (fscanf), or a core id.
pub data Reading : Type 0 where
  unprintable missing garbled negative : Reading
  core : ℕ → Reading

-- What a round of the loops does: `break`, go on with the next CPU, or record a core met for the
-- first time. An id that is out of range or has been seen changes nothing.
pub data Look : Type 0 where
  stop skip : Look
  fresh : ℕ → Look

pub inspect : (ℕ → Bool) → Reading → Look
inspect seen unprintable = stop
inspect seen missing = stop
inspect seen garbled = skip
inspect seen negative = skip
inspect seen (core id) = if ltb id max_cpus && not (seen id) then fresh id else skip

module _ (topology : ℕ → Reading) where
  -- The loop of get_physical_core_count, for the `n` CPUs from `cpu_index` on.
  pub count_cores : ℕ → ℕ → (ℕ → Bool) → ℕ → ℕ
  count_cores zero cpu_index seen count = count
  count_cores (suc n) cpu_index seen count = elim (inspect seen (topology cpu_index)) [
    | stop ↦ count
    | skip ↦ count_cores n (cpu_index + 1) seen count
    | fresh id ↦ count_cores n (cpu_index + 1) (update seen id true) (count + 1)
  ]

  -- The loop of pin_current_thread_to_physical_core: the CPU to pin to, `none` for false.
  pub find_cpu : ℕ → ℕ → (ℕ → Bool) → ℕ → ℕ → Option ℕ
  find_cpu zero cpu_index seen found index = none
  find_cpu (suc n) cpu_index seen found index = elim (inspect seen (topology cpu_index)) [
    | stop ↦ none
    | skip ↦ find_cpu n (cpu_index + 1) seen found index
    | fresh id ↦
        let later = find_cpu n (cpu_index + 1) (update seen id true) (found + 1) index in
        if found == index then some cpu_index else later
  ]

  -- The cores that the topology files name.
  pub listed_cores : ℕ
  listed_cores = count_cores max_cpus 0 (λ _. false) 0

  pub cpu_of_core : ℕ → Option ℕ
  cpu_of_core index = find_cpu max_cpus 0 (λ _. false) 0 index

  -- bc_concurrency_platform_get_physical_core_count, with the CPU count that it falls back on.
  pub physical_core_count : ℕ → ℕ
  physical_core_count cpu_count = if listed_cores == 0 then cpu_count else listed_cores

  -- bc_concurrency_platform_pin_current_thread_to_physical_core; `set_affinity cpu` says whether
  -- pthread_setaffinity_np to that one CPU succeeds.
  pub pin_current_thread : (ℕ → Bool) → ℕ → Bool
  pin_current_thread set_affinity index = elim (cpu_of_core index) [
    | none ↦ false
    | some cpu ↦ set_affinity cpu
  ]

-- bc_concurrency_platform_get_cpu_count: `sysconf`, `none` where that is below 1.
pub get_cpu_count : Option ℕ → ℕ
get_cpu_count none = 1
get_cpu_count (some detected) = detected
