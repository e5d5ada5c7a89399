-- ===== src/Session/Example.antt =====
-- A staging array that moves, for concrete runs.
use bc_concurrency.Base.{inl, inr, refl, Bool-cases, true, ltb, ◌==◌, if◌then◌else◌, arith}
use bc_concurrency.Allocator.Bump.{bump, give_block, bump_allocator}
use bc_concurrency.Session.{Staging, IsStaging}

-- The third element moves the storage to a new block.
abbrev pub moving : Staging bump_allocator
moving = record {
  push = λ h p n. if n == 2 then (give_block (bump h) p, h.next, true) else (h, p, ltb n 1024);
}

pub moving-IsStaging : IsStaging bump_allocator moving
moving-IsStaging = record {
  push_cases = λ h p n. elim (Bool-cases (n == 2)) [
    | inl e ↦ rw e (inr (h.above h.next (omega arith), λ q. refl))
    | inr e ↦ rw e (inl (refl, λ q. refl))
  ];
}
