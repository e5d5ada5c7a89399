-- ===== src/Context/Slots.antt =====
-- src/context/bc_concurrency.c: bc_concurrency_register_slot, with its rollback.
pub mod Registration
pub mod Shape
pub mod Inits
pub mod Capacity
pub mod Memory
use bc_concurrency.Base.{
  ℕ, zero, suc, ◌+◌, ◌*◌, ◌^◌, ◌<◌, ◌≤◌, ◌≡◌, ◌≢◌, ◌⊎◌, inl, inr, refl, sym, ap, ◌∙◌, Bool, true,
  false, ◌&&◌, Option, none, some, Bool-cases, List, [], ◌∷◌, ◌++◌, arith, update, ltb, leb, ◌==◌,
  if◌then◌else◌,
}
use mathlib.Core.Path.{subst}
use bc_concurrency.Base.Words.{u64}
use bc_concurrency.Allocator.{Allocator}
use bc_concurrency.Context.{Context, Machine}

-- bc_concurrency_slot_config_t: whether `init` and `destroy` are there, and the size of the data.
pub record SlotConfig : Type 0 where
  pub size : ℕ
  pub has_init : Bool
  pub has_destroy : Bool

-- BC_CONCURRENCY_SLOT_INITIAL_CAPACITY
abbrev pub slot_initial_capacity : ℕ
slot_initial_capacity = 4

-- `workers[i].slots[s] = v`
unfoldable pub set_slot : ℕ → ℕ → Option ℕ → Context → Context
set_slot i s v c = record c { slot = update c.slot i (update (c.slot i) s v) }

-- A worker's new array of slots, with the first `count` copied if there was one before. `none` stands
-- for what the rest of it holds.
unfoldable pub copied : Option ℕ → ℕ → (ℕ → Option ℕ) → ℕ → Option ℕ
copied none count old s = none
copied (some p) count old s = if ltb s count then old s else none

module _ (a : Allocator) (config_size : ℕ) where
  unfoldable pub release_some : Option ℕ → Machine a → Machine a
  release_some none m = m
  release_some (some p) m = record m { heap = a.free m.heap p }

  unfoldable pub got_configs : Context → ℕ → Machine a → Option ℕ → Machine a × Option Context
  got_configs c new_capacity m none = (m, none)
  got_configs c new_capacity m (some p) = (
    release_some c.slot_configs m,
    some (record c { slot_configs = some p; slot_capacity = new_capacity }),
  )

  -- Room for one more configuration.
  unfoldable pub grow_configs : Context → Machine a → Machine a × Option Context
  grow_configs c m =
      let new_capacity =
        if c.slot_capacity == 0 then slot_initial_capacity else u64 (c.slot_capacity * 2) in
      let (h, block) = a.allocate m.heap (u64 (new_capacity * config_size)) in
      let grown = got_configs c new_capacity (record m { heap = h }) block in
      if ltb c.slot_count c.slot_capacity then (m, some c) else grown

  -- One round of the loop over the workers, from each allocation on; false for `goto fail_slots`.
  unfoldable pub got_data :
      SlotConfig → ℕ → Context → Machine a → Option ℕ → Machine a × Context × Bool
  got_data config i c m none = (m, set_slot i c.slot_count none c, false)
  got_data config i c m (some p) = (
    record m {
      initialised =
          if config.has_init then m.initialised ++ ((c.slot_count, i) ∷ []) else m.initialised;
    },
    set_slot i c.slot_count (some p) c,
    true,
  )

  unfoldable pub got_slots :
      SlotConfig → ℕ → Context → Machine a → Option ℕ → Machine a × Context × Bool
  got_slots config i c m none = (m, c, false)
  got_slots config i c m (some p) =
      let freed = release_some (c.slots i) m in
      let c' = record c {
        slots = update c.slots i (some p);
        slot = update c.slot i (copied (c.slots i) c.slot_count (c.slot i));
      } in
      let (h, block) = a.allocate freed.heap config.size in
      got_data config i c' (record freed { heap = h }) block

  unfoldable pub slot_round : SlotConfig → ℕ → Context → Machine a → Machine a × Context × Bool
  slot_round config i c m =
      let (h, block) = a.allocate m.heap (u64 (u64 (c.slot_count + 1) * 8)) in
      got_slots config i c (record m { heap = h }) block

  -- The loop for the `n` workers from `i` on: `some workers_completed` where it fails.
  unfoldable pub slot_loop :
      SlotConfig → ℕ → ℕ → Context → Machine a → Machine a × Context × Option ℕ
  slot_loop config zero i c m = (m, c, none)
  slot_loop config (suc n) i c m =
      let (m', c', ok) = slot_round config i c m in
      let rest = slot_loop config n (i + 1) c' m' in if ok then rest else (m', c', some i)

  -- fail_slots, for the `n` workers from `j` on.
  unfoldable pub drop_slot : ℕ → Option ℕ → Context → Machine a → Machine a × Context
  drop_slot j none c m = (m, c)
  drop_slot j (some p) c m = (record m { heap = a.free m.heap p }, set_slot j c.slot_count none c)

  unfoldable pub fail_slots : ℕ → ℕ → Context → Machine a → Machine a × Context
  fail_slots zero j c m = (m, c)
  fail_slots (suc n) j c m =
      let (m', c') = drop_slot j (c.slot j c.slot_count) c m in fail_slots n (j + 1) c' m'

  unfoldable pub after_slots : Machine a × Context × Option ℕ → Machine a × Context × Option ℕ
  after_slots (m, c, none) = (m, record c { slot_count = c.slot_count + 1 }, some c.slot_count)
  after_slots (m, c, some completed) = let (m', c') = fail_slots completed 0 c m in (m', c', none)

  unfoldable pub with_configs :
      SlotConfig → Context → Machine a × Option Context → Machine a × Context × Option ℕ
  with_configs config before (m, none) = (m, before, none)
  with_configs config before (m, some c) = after_slots (
      slot_loop config (u64 (c.thread_count + 1)) 0
        (record c { has_destroy = update c.has_destroy c.slot_count config.has_destroy }) m)

  -- bc_concurrency_register_slot: the slot's index, or `none` for false.
  unfoldable pub register_slot : SlotConfig → Context → Machine a → Machine a × Context × Option ℕ
  register_slot config c m = with_configs config c (grow_configs c m)
