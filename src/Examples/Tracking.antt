-- ===== src/Examples/Tracking.antt =====
-- Three generations of a website, of which the last was observed as ready.
use kubernetes_controller_sh.Base.{◌≡◌, false, none, some, List, [], ◌∷◌}
use kubernetes_controller_sh.Base.Int.{ℤ, pos}
use kubernetes_controller_sh.Tracker.{GenerationTimes, reconcile_sorted}
use kubernetes_controller_sh.Tracker.Settled.{times, reconcile-settled}
use kubernetes_controller_sh.Examples.Data.{at}

abbrev generations : List (ℤ × GenerationTimes)
generations =
    (pos 1, times (some (at 1)) none false)
    ∷ (pos 2, times none none false)
    ∷ (pos 3, times (some (at 3)) (some (at 4)) false)
    ∷ []

reconcile-settled_example :
    ((reconcile_sorted (reconcile_sorted generations).generations).generations
      ≡ (reconcile_sorted generations).generations)
    × ((reconcile_sorted (reconcile_sorted generations).generations).latencies ≡ [])
reconcile-settled_example = reconcile-settled generations
