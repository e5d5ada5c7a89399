-- ===== src/Context/Callbacks.antt =====
-- The calls of the slots' `destroy`, and what else bc_concurrency_destroy leaves.
use bc_concurrency.Base.{
  ℕ, zero, suc, ◌+◌, ◌^◌, ◌<◌, ◌≡◌, refl, ap, ◌∙◌, true, false, Bool, ◌&&◌, Option, none, some,
  List, [], ◌∷◌, ◌++◌, arith, update, ltb, leb, ◌==◌, if◌then◌else◌,
}
use bc_concurrency.Base.Words.{u64}
use bc_concurrency.Allocator.{Allocator}
use bc_concurrency.Context.{
  Sizes, Context, Services, Machine, free, free_some, destroy_slot, destroy_slots, destroy_workers,
  destroy,
}

-- How often a callback was called for slot `s` of worker `i`.
unfoldable pub times : ℕ → ℕ → List (ℕ × ℕ) → ℕ
times s i [] = 0
times s i ((t, j) ∷ l) = (if t == s && j == i then 1 else 0) + times s i l

pub times-append : (s i : ℕ) (l k : List (ℕ × ℕ)) → times s i (l ++ k) ≡ times s i l + times s i k
unfolding times
times-append s i [] k = omega arith
times-append s i ((t, j) ∷ l) k = omega (arith, times-append s i l k)

abbrev pub filled : Option ℕ → Bool
filled none = false
filled (some p) = true

module _ (a : Allocator) (e : Services a) (z : Sizes) where
  abbrev Same : Machine a → Machine a → Type 0
  Same m m' = (m'.memories ≡ m.memories) × (m'.locks ≡ m.locks)

  destroy_slot_lem :
      (c : Context) (i s : ℕ) (o : Option ℕ) (m : Machine a) (t j : ℕ)
      → Same m (destroy_slot a e z c i s o m)
        × (times t j (destroy_slot a e z c i s o m).destroyed
            ≡ times t j m.destroyed
              + (if s == t && i == j && c.has_destroy s && filled o then 1 else 0))
  unfolding destroy_slot times
  destroy_slot_lem c i s none m t j = ground arith
  destroy_slot_lem c i s (some p) m t j = ground (arith, times-append t j m.destroyed ((s, i) ∷ []))

  destroy_slots_lem :
      (n : ℕ) (c : Context) (i : ℕ) (m : Machine a) (t j : ℕ)
      → Same m (destroy_slots a e z n c i m)
        × (times t j (destroy_slots a e z n c i m).destroyed
            ≡ times t j m.destroyed
              + (if ltb t n && i == j && c.has_destroy t && filled (c.slot i t) then 1 else 0))
  unfolding destroy_slots
  destroy_slots_lem zero c i m t j = ground arith
  destroy_slots_lem (suc n) c i m t j = ground (
    arith,
    destroy_slot_lem c i n (c.slot i n) m t j,
    destroy_slots_lem n c i (destroy_slot a e z c i n (c.slot i n) m) t j,
  )

  free_some_lem :
      (o : Option ℕ) (m : Machine a)
      → Same m (free_some a e z o m) × ((free_some a e z o m).destroyed ≡ m.destroyed)
  unfolding free_some
  free_some_lem none m = ((refl, refl), refl)
  free_some_lem (some p) m = ((refl, refl), refl)

  pub destroy_workers_rest :
      (n i : ℕ) (c : Context) (m : Machine a) (t j : ℕ)
      → ((destroy_workers a e z n i c m).memories j
          ≡ (if leb i j && ltb j (i + n) then false else m.memories j))
        × ((destroy_workers a e z n i c m).locks j
            ≡ (if leb i j && ltb j (i + n) then false else m.locks j))
        × (times t j (destroy_workers a e z n i c m).destroyed
            ≡ times t j m.destroyed
              + (if leb i j
                    && ltb j (i + n)
                    && ltb t c.slot_count
                    && c.has_destroy t
                    && filled (c.slot j t)
                  then 1
                  else 0))
  unfolding destroy_workers
  destroy_workers_rest zero i c m t j = ground arith
  destroy_workers_rest (suc n) i c m t j =
      let swept = destroy_slots a e z c.slot_count c i m in
      let freed = free_some a e z (c.slots i) swept in
      let next = record freed {
        locks = update freed.locks i false;
        memories = update freed.memories i false;
      } in
      let ih = destroy_workers_rest n (i + 1) c next t j in
      let slots = destroy_slots_lem c.slot_count c i m t j in
      let block = free_some_lem (c.slots i) swept in
      let memory = ap (λ g. g j) (block.0.0 ∙ slots.0.0) in
      let lock = ap (λ g. g j) (block.0.1 ∙ slots.0.1) in
      (
        ih.0 ∙ ground (arith, memory),
        ih.1 ∙ ground (arith, lock),
        ih.2 ∙ ground (arith, slots.1, ap (times t j) block.1),
      )

  -- For a context with `n` workers, after bc_concurrency_destroy.
  pub destroy_rest :
      (n : ℕ) (c : Context) (m : Machine a) (t j : ℕ)
      → n + 1 < 2 ^ 64
      → c.thread_count ≡ n
      → ((destroy a e z c m).memories j ≡ (if leb j n then false else m.memories j))
        × ((destroy a e z c m).locks j ≡ (if leb j n then false else m.locks j))
        × (times t j (destroy a e z c m).destroyed
            ≡ times t j m.destroyed
              + (if leb j n && ltb t c.slot_count && c.has_destroy t && filled (c.slot j t)
                  then 1
                  else 0))
  unfolding destroy
  destroy_rest n c m t j small threads =
      let all = u64 (c.thread_count + 1) in
      let words : all ≡ suc n = omega (arith, threads) in
      let swept = destroy_workers a e z all 0 c m in
      let m₁ = free_some a e z c.slot_configs swept in
      let m₂ = record m₁ { heap = e.release m₁.heap c.staging } in
      let m₃ = free a e z c.dispatch_work (free a e z c.dispatch_tasks m₂) in
      let configs = free_some_lem c.slot_configs swept in
      let last = free_some_lem c.threads m₃ in
      let workers = destroy_workers_rest all 0 c m t j in
      (
        ap (λ g. g j) (last.0.0 ∙ configs.0.0) ∙ workers.0 ∙ ground (arith, words),
        ap (λ g. g j) (last.0.1 ∙ configs.0.1) ∙ workers.1 ∙ ground (arith, words),
        ap (times t j) (last.1 ∙ configs.1) ∙ workers.2 ∙ ground (arith, words),
      )
