-- ===== src/Session/Sweep/Tests.antt =====
-- A sweep of the test manager.
use isobox.Prelude.{
  Bytes, Bytes-discrete, codes, lookup, none, refl, some, ℕ, ◌*◌, ◌-◌, ◌≡◌, ◌≢◌, ◌≤◌, ◌⊎◌,
}
use isobox.Session.{Manager}
use isobox.Session.Tests.{slots, plain, manager, found_plain, manager-IsBalanced}
use isobox.Session.Teardown.Balance.{IsBalanced}
use isobox.Session.Sweep.Kernels.{sweep_kernels-IsBalanced}
use isobox.Session.Sweep.Loop.{IsKeyed}
use isobox.Kernel.{hour}
use isobox.Session.Sweep.{
  sweep_kernels, sweep, visit, visit_all, cull, set_used, sort_sized, insert_sized, must_go,
}
use isobox.Session.Sweep.Bounds.{usage}
use isobox.Session.Sweep.Whole.{sweep-IsBalanced, sweep-kept}

abbrev du : Bytes → ℕ
du w = 100

abbrev swept : Manager slots ℕ
swept = record manager { used = 200 }

manager-sweep : sweep slots ℕ du 10 manager ≡ some swept
unfolding sweep visit visit_all cull set_used sort_sized insert_sized must_go
manager-sweep = refl

sweep-IsBalanced_example :
    (m' : Manager slots ℕ) × (sweep slots ℕ du 10 manager ≡ some m')
    × IsBalanced slots ℕ m'
    × (m'.used ≡ usage slots ℕ du m'.sessions)
    × (m'.used ≤ 1500)
sweep-IsBalanced_example =
    sweep-IsBalanced slots ℕ du 10 manager manager-IsBalanced (refl, (refl, tt))

sweep-kept_example :
    (lookup Bytes-discrete (codes "sess_a") manager.sessions ≡ some plain)
    × (100 ≤ 1000)
    × ((plain.kernel ≢ none) ⊎ (10 - 7 ≤ plain.idle_ttl))
sweep-kept_example =
    sweep-kept slots ℕ du 10 manager swept (codes "sess_a") plain manager-IsBalanced
      (refl, (refl, tt)) manager-sweep found_plain

sweep_kernels-IsBalanced_example :
    (m' : Manager slots ℕ) × (sweep_kernels slots ℕ manager (9 * hour) ≡ some m')
    × IsBalanced slots ℕ m'
    × IsKeyed m'.sessions
    × (m'.config ≡ manager.config)
sweep_kernels-IsBalanced_example =
    sweep_kernels-IsBalanced slots ℕ manager (9 * hour) manager-IsBalanced (refl, (refl, tt))
