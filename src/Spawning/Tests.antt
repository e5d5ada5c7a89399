-- ===== src/Spawning/Tests.antt =====
-- An attempt to spawn two workers of which the second cannot be created.
use bc_concurrency.Base.{◌≡◌, ◌⊎◌, refl, true, false, arith, ltb}
use bc_concurrency.Spawning.{Answers, spawn_workers, new_crew}
use bc_concurrency.Spawning.Retry.{spawn_cases}

abbrev one_thread : Answers
one_thread = record { attr_init = true; attr_setstacksize = true; create = λ i. ltb i 1 }

spawn_cases_example :
    (((spawn_workers one_thread 2 new_crew).1 ≡ true)
      × ((spawn_workers one_thread 2 new_crew).0.running 0 ≡ true)
      × ((spawn_workers one_thread 2 new_crew).0.should_stop ≡ new_crew.should_stop)
      × ((spawn_workers one_thread 2 new_crew).0.workers_spawned ≡ true))
    ⊎ (((spawn_workers one_thread 2 new_crew).1 ≡ false)
        × ((spawn_workers one_thread 2 new_crew).0.running 0 ≡ false)
        × ((spawn_workers one_thread 2 new_crew).0.workers_spawned ≡ new_crew.workers_spawned))
spawn_cases_example = spawn_cases one_thread 2 new_crew 0 refl (omega arith)
