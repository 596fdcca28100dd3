-- ===== src/Tracker/Settled.antt =====
-- webhosting-operator/pkg/experiment/tracker/website.go: recording again what was recorded.
use kubernetes_controller_sh.Base.{
  ◌≡◌, ◌≢◌, refl, sym, ap, ◌∙◌, ◌↔◌, inl, inr, Bool, true, false, not, Option, none, some, List, [],
  ◌∷◌, map, if◌then◌else◌, In,
}
use kubernetes_controller_sh.Base.Int.{ℤ}
use kubernetes_controller_sh.Tracker.{
  GenerationTimes, Backfilled, backfill_one, backfill_generations, Recorded, record_one,
  record_new_ready_generations, reconcile_sorted,
}

some-none : (t : ℤ) → some t ≢ none
some-none t e = cc

-- What recording makes of the times of one generation.
unfoldable pub recorded_times : GenerationTimes → GenerationTimes
recorded_times g = if g.recorded then g else elim g.created [
  | none ↦ g
  | some c ↦ elim g.ready [ none ↦ g | some t ↦ record g { recorded = true } ]
]

unfoldable pub all_recorded : List (ℤ × GenerationTimes) → List (ℤ × GenerationTimes)
unfolding recorded_times
all_recorded = map (λ (k, g). (k, recorded_times g))

abbrev pub times : Option ℤ → Option ℤ → Bool → GenerationTimes
times c r b = record { created = c; ready = r; recorded = b }

-- What backfilling makes of the times of one generation, and the ready time for those before it.
filled : GenerationTimes → Option ℤ → GenerationTimes
filled g newer =
    if g.recorded then g else elim g.ready [ none ↦ record g { ready = newer } | some t ↦ g ]

next_ready : GenerationTimes → Option ℤ → Option ℤ
next_ready g newer = if g.recorded then newer else elim g.ready [ none ↦ newer | some t ↦ some t ]

record_one-generations :
    (k : ℤ) (c r : Option ℤ) (b : Bool) (rest : Recorded)
    → (record_one k (times c r b) rest).generations
      ≡ (k, recorded_times (times c r b)) ∷ rest.generations
unfolding record_one recorded_times
record_one-generations k c r true rest = refl
record_one-generations k none r false rest = refl
record_one-generations k (some c) none false rest = refl
record_one-generations k (some c) (some r) false rest = refl

record_one-quiet :
    (k : ℤ) (c r : Option ℤ) (b : Bool) (rest : Recorded)
    → (record_one k (recorded_times (times c r b)) rest).latencies ≡ rest.latencies
unfolding record_one recorded_times
record_one-quiet k c r true rest = refl
record_one-quiet k none r false rest = refl
record_one-quiet k (some c) none false rest = refl
record_one-quiet k (some c) (some r) false rest = refl

recorded_times-recorded_times :
    (c r : Option ℤ) (b : Bool)
    → recorded_times (recorded_times (times c r b)) ≡ recorded_times (times c r b)
unfolding recorded_times
recorded_times-recorded_times c r true = refl
recorded_times-recorded_times none r false = refl
recorded_times-recorded_times (some c) none false = refl
recorded_times-recorded_times (some c) (some r) false = refl

backfill_one_lem :
    (k : ℤ) (c r : Option ℤ) (b : Bool) (rest : Backfilled)
    → ((backfill_one k (times c r b) rest).generations
        ≡ (k, filled (times c r b) rest.newer_ready_time) ∷ rest.generations)
      × ((backfill_one k (times c r b) rest).newer_ready_time
          ≡ next_ready (times c r b) rest.newer_ready_time)
unfolding backfill_one filled next_ready
backfill_one_lem k c r true rest = (refl, refl)
backfill_one_lem k c none false rest = (refl, refl)
backfill_one_lem k c (some r) false rest = (refl, refl)

filled-settled :
    (c r : Option ℤ) (b : Bool) (n n2 : Option ℤ)
    → (n ≡ none → n2 ≡ none)
    → filled (recorded_times (filled (times c r b) n)) n2 ≡ recorded_times (filled (times c r b) n)
unfolding filled recorded_times
filled-settled c r true n n2 h = refl
filled-settled none none false none n2 h = ap (λ x. times none x false) (h refl)
filled-settled (some c) none false none n2 h = ap (λ x. times (some c) x false) (h refl)
filled-settled none none false (some t) n2 h = refl
filled-settled (some c) none false (some t) n2 h = refl
filled-settled none (some r) false n n2 h = refl
filled-settled (some c) (some r) false n n2 h = refl

next_ready-none :
    (c r : Option ℤ) (b : Bool) (n n2 : Option ℤ)
    → (n ≡ none → n2 ≡ none)
    → next_ready (times c r b) n ≡ none
    → next_ready (recorded_times (filled (times c r b) n)) n2 ≡ none
unfolding next_ready filled recorded_times
next_ready-none c r true n n2 h e = h e
next_ready-none none none false none n2 h e = h refl
next_ready-none (some c) none false none n2 h e = h refl
next_ready-none c none false (some t) n2 h e = absurd (some-none t e)
next_ready-none c (some r) false n n2 h e = absurd (some-none r e)

pub record-all :
    (gs : List (ℤ × GenerationTimes))
    → (record_new_ready_generations gs).generations ≡ all_recorded gs
unfolding record_new_ready_generations all_recorded
record-all [] = refl
record-all ((k, g) ∷ gs) =
    record_one-generations k g.created g.ready g.recorded (record_new_ready_generations gs)
    ∙ ap (λ rest. (k, recorded_times g) ∷ rest) (record-all gs)

record-quiet :
    (gs : List (ℤ × GenerationTimes))
    → (record_new_ready_generations (all_recorded gs)).latencies ≡ []
unfolding record_new_ready_generations all_recorded
record-quiet [] = refl
record-quiet ((k, g) ∷ gs) =
    record_one-quiet k g.created g.ready g.recorded (record_new_ready_generations (all_recorded gs))
    ∙ record-quiet gs

all_recorded-all_recorded :
    (gs : List (ℤ × GenerationTimes)) → all_recorded (all_recorded gs) ≡ all_recorded gs
unfolding all_recorded
all_recorded-all_recorded [] = refl
all_recorded-all_recorded ((k, g) ∷ gs) =
    rw (recorded_times-recorded_times g.created g.ready g.recorded)
      (ap (λ rest. (k, recorded_times g) ∷ rest) (all_recorded-all_recorded gs))

backfill-settled :
    (gs : List (ℤ × GenerationTimes))
    → ((backfill_generations (all_recorded (backfill_generations gs).generations)).generations
        ≡ all_recorded (backfill_generations gs).generations)
      × ((backfill_generations gs).newer_ready_time ≡ none
          → (backfill_generations
              (all_recorded (backfill_generations gs).generations)).newer_ready_time
            ≡ none)
unfolding backfill_generations all_recorded
backfill-settled [] = (refl, λ _. refl)
backfill-settled ((k, g) ∷ gs) =
    let b = backfill_generations gs in
    let b2 = backfill_generations (all_recorded b.generations) in
    let (same, empty) = backfill-settled gs in
    let (front, next) = backfill_one_lem k g.created g.ready g.recorded b in
    let g2 = recorded_times (filled g b.newer_ready_time) in
    let (front2, next2) = backfill_one_lem k g2.created g2.ready g2.recorded b2 in
    rw (front, next)
      (
        front2
            ∙ rw (filled-settled g.created g.ready g.recorded _ _ empty)
                (ap (λ rest. (k, g2) ∷ rest) same),
        λ e. next2 ∙ next_ready-none g.created g.ready g.recorded _ _ empty e,
      )

-- Reconciling the generations of a website again, with no new times, changes none of them and
-- observes no latency.
pub reconcile-settled :
    (gs : List (ℤ × GenerationTimes))
    → ((reconcile_sorted (reconcile_sorted gs).generations).generations
        ≡ (reconcile_sorted gs).generations)
      × ((reconcile_sorted (reconcile_sorted gs).generations).latencies ≡ [])
unfolding reconcile_sorted
reconcile-settled gs =
    let l = (backfill_generations gs).generations in
    rw (record-all l) (
      rw ((backfill-settled gs).0)
        (record-all (all_recorded l) ∙ all_recorded-all_recorded l, record-quiet l))

IsRecorded : List (ℤ × GenerationTimes) → Type 0
IsRecorded gs = (k : ℤ) (g : GenerationTimes) → In (k, g) gs → g.recorded ≡ true

record_one-finished :
    (k : ℤ) (c r : Option ℤ) (b : Bool) (rest : Recorded)
    → ((record_one k (times c r b) rest).finished ≡ true)
      ↔ (((recorded_times (times c r b)).recorded ≡ true) × (rest.finished ≡ true))
unfolding record_one recorded_times
record_one-finished k c r true rest = (λ h. (refl, h), λ h. h.1)
record_one-finished k none r false rest = (λ h. cc, λ h. h.0)
record_one-finished k (some c) none false rest = (λ h. cc, λ h. h.0)
record_one-finished k (some c) (some r) false rest = (λ h. (refl, h), λ h. h.1)

record-finished :
    (gs : List (ℤ × GenerationTimes))
    → ((record_new_ready_generations gs).finished ≡ true) ↔ IsRecorded (all_recorded gs)
unfolding record_new_ready_generations IsRecorded all_recorded
record-finished [] = (λ h k g m. elim m [ ], λ h. refl)
record-finished ((k, g) ∷ gs) =
    let (to, from) =
      record_one-finished k g.created g.ready g.recorded (record_new_ready_generations gs) in
    let (all, back) = record-finished gs in
    (
      λ h j x m. elim m [
        | inl e ↦ ap (λ y. y.1.recorded) e ∙ (to h).0
        | inr i ↦ all ((to h).1) j x i
      ],
      λ h. from (h k (recorded_times g) (inl refl), back (λ j x i. h j x (inr i))),
    )

not-true : (b : Bool) → (not b ≡ false) ↔ (b ≡ true)
not-true true = (λ h. refl, λ h. refl)
not-true false = (λ h. sym h, λ h. sym h)

-- The tracker asks for no further reconciliation exactly if all generations are recorded.
pub reconcile-finished :
    (gs : List (ℤ × GenerationTimes))
    → ((reconcile_sorted gs).requeue ≡ false) ↔ (
        (k : ℤ) (g : GenerationTimes)
        → In (k, g) (reconcile_sorted gs).generations
        → g.recorded ≡ true)
unfolding reconcile_sorted IsRecorded
reconcile-finished gs =
    let l = (backfill_generations gs).generations in
    let (to, from) = record-finished l in
    let (out, back) = not-true (record_new_ready_generations l).finished in
    rw (record-all l) (λ h. to (out h), λ h. back (from h))
