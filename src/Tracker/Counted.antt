-- ===== src/Tracker/Counted.antt =====
-- webhosting-operator/pkg/experiment/tracker/website.go: what the count of backfilled generations counts.
use kubernetes_controller_sh.Base.{
  suc, ◌≡◌, refl, ap, ◌∙◌, inl, inr, Bool, true, false, Option, none, some, List, [], ◌∷◌, In,
  length,
}
use kubernetes_controller_sh.Base.Int.{ℤ}
use kubernetes_controller_sh.Tracker.{
  GenerationTimes, Backfilled, backfill_one, backfill_generations, reconcile_sorted,
}
use kubernetes_controller_sh.Tracker.Settled.{times, recorded_times, all_recorded, record-all}

-- None of the generations was observed as ready.
pub IsUnready : List (ℤ × GenerationTimes) → Type 0
IsUnready gs =
    (k : ℤ) (g : GenerationTimes) → In (k, g) gs → (g.ready ≡ none) × (g.recorded ≡ false)

backfill_one-unready :
    (k : ℤ) (c r : Option ℤ) (b : Bool) (rest : Backfilled)
    → r ≡ none
    → b ≡ false
    → rest.newer_ready_time ≡ none
    → backfill_one k (times c r b) rest ≡ record {
      generations = (k, times c r b) ∷ rest.generations;
      newer_ready_time = none;
      backfilled = suc rest.backfilled;
    }
unfolding backfill_one
backfill_one-unready k c r b rest h f n = rw h (rw f (rw n refl))

backfill-unready :
    (gs : List (ℤ × GenerationTimes))
    → IsUnready gs
    → backfill_generations gs
      ≡ record { generations = gs; newer_ready_time = none; backfilled = length gs }
unfolding backfill_generations IsUnready
backfill-unready [] h = refl
backfill-unready ((k, g) ∷ gs) h =
    let (unready, fresh) = h k g (inl refl) in
    let rest = backfill-unready gs (λ j x i. h j x (inr i)) in
    backfill_one-unready k g.created g.ready g.recorded (backfill_generations gs) unready fresh
      (ap (λ b. b.newer_ready_time) rest)
    ∙ rw rest refl

recorded_times-unready :
    (c r : Option ℤ) (b : Bool) → r ≡ none → b ≡ false → recorded_times (times c r b) ≡ times c r b
unfolding recorded_times
recorded_times-unready none r true h f = refl
recorded_times-unready none r false h f = refl
recorded_times-unready (some c) none true h f = refl
recorded_times-unready (some c) none false h f = refl
recorded_times-unready (some c) (some r) b h f = cc

all_recorded-unready : (gs : List (ℤ × GenerationTimes)) → IsUnready gs → all_recorded gs ≡ gs
unfolding all_recorded IsUnready
all_recorded-unready [] h = refl
all_recorded-unready ((k, g) ∷ gs) h =
    let (unready, fresh) = h k g (inl refl) in
    rw (recorded_times-unready g.created g.ready g.recorded unready fresh)
      (ap (λ rest. (k, g) ∷ rest) (all_recorded-unready gs (λ j x i. h j x (inr i))))

-- Where no generation was observed as ready, reconciling changes none of them, and counts all of
-- them as backfilled.
pub reconcile-unready :
    (gs : List (ℤ × GenerationTimes))
    → IsUnready gs
    → ((reconcile_sorted gs).generations ≡ gs) × ((reconcile_sorted gs).backfilled ≡ length gs)
unfolding reconcile_sorted
reconcile-unready gs h =
    let e = backfill-unready gs h in rw e (record-all gs ∙ all_recorded-unready gs h, refl)
