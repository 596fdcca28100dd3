-- ===== src/Tracker.antt =====
-- webhosting-operator/pkg/experiment/tracker: how long the generations of websites take to get ready.
pub mod Settled
pub mod Counted
use kubernetes_controller_sh.Base.{
  ℕ, suc, String, ◌==◌, Bool, true, false, not, ◌&&◌, Option, none, some, List, [], ◌∷◌, map,
  if◌then◌else◌,
}
use kubernetes_controller_sh.Base.Int.{ℤ, leb_ℤ}
use kubernetes_controller_sh.Base.Map.{Map, Key, string_key, int_key, lookup, insert}
use kubernetes_controller_sh.Leases.Duration.{time_sub}
use kubernetes_controller_sh.Webhosting.{Website, phase_ready, is_some}
use kubernetes_controller_sh.Webhosting.Reconcile.{same_status, Seen, on_update}

-- A time that is zero is `none`.
pub record GenerationTimes : Type 0 where
  pub created : Option ℤ
  pub ready : Option ℤ
  pub recorded : Bool

abbrev pub new_times : GenerationTimes
new_times = record { created = none; ready = none; recorded = false }

-- The generations of one object.
abbrev pub Generations : Type 0
Generations = Map ℤ GenerationTimes

-- All objects, by their UID.
abbrev pub Objects : Type 0
Objects = Map String Generations

unfoldable pub or_new : {V : Type 0} → V → Option V → V
or_new new none = new
or_new new (some v) = v

module _ {K V : Type 0} ⦃e : Key K⦄ where
  -- `tracker.set`, which holds the lock of the map meanwhile.
  unfoldable pub set : V → K → (V → V) → Map K V → Map K V
  unfolding lookup insert or_new
  set new key mutate values = insert key (mutate (or_new new (lookup key values))) values

-- `slices.Sort` of the keys, with the values along.
unfoldable pub insert_sorted : {V : Type 0} → ℤ × V → List (ℤ × V) → List (ℤ × V)
insert_sorted x [] = x ∷ []
insert_sorted (k, v) ((j, w) ∷ ys) =
    let rest = insert_sorted (k, v) ys in if leb_ℤ k j then (k, v) ∷ (j, w) ∷ ys else (j, w) ∷ rest

unfoldable pub sorted_values : {V : Type 0} → Map ℤ V → List (ℤ × V)
unfolding insert_sorted
sorted_values [] = []
sorted_values (x ∷ xs) = insert_sorted x (sorted_values xs)

-- A time that is there is not overwritten.
unfoldable pub first_time : Option ℤ → ℤ → Option ℤ
first_time none t = some t
first_time (some old) t = some old

unfoldable pub set_generation_created : ℤ → ℤ → Generations → Generations
unfolding set first_time
set_generation_created generation t =
    set new_times generation (λ times. record times { created = first_time times.created t })

unfoldable pub set_generation_ready : ℤ → ℤ → Generations → Generations
unfolding set first_time
set_generation_ready generation t =
    set new_times generation (λ times. record times { ready = first_time times.ready t })

-- From the back: the generations, the ready time of the next one, and the count of backfilled ones.
pub record Backfilled : Type 0 where
  pub generations : List (ℤ × GenerationTimes)
  pub newer_ready_time : Option ℤ
  pub backfilled : ℕ

unfoldable pub backfill_one : ℤ → GenerationTimes → Backfilled → Backfilled
backfill_one k g b =
    if g.recorded then record b { generations = (k, g) ∷ b.generations } else elim g.ready [
      | none ↦ record {
        generations = (k, record g { ready = b.newer_ready_time }) ∷ b.generations;
        newer_ready_time = b.newer_ready_time;
        backfilled = suc b.backfilled;
      }
      | some t ↦ record b { generations = (k, g) ∷ b.generations; newer_ready_time = some t }
    ]

unfoldable pub backfill_generations : List (ℤ × GenerationTimes) → Backfilled
unfolding backfill_one
backfill_generations [] = record { generations = []; newer_ready_time = none; backfilled = 0 }
backfill_generations ((k, g) ∷ gs) = backfill_one k g (backfill_generations gs)

-- The generations, whether all are recorded, and the latencies that were observed.
pub record Recorded : Type 0 where
  pub generations : List (ℤ × GenerationTimes)
  pub finished : Bool
  pub latencies : List (ℤ × ℤ)

unfoldable pub record_one : ℤ → GenerationTimes → Recorded → Recorded
record_one k g r =
    if g.recorded then record r { generations = (k, g) ∷ r.generations } else elim g.created [
      | none ↦ record r { generations = (k, g) ∷ r.generations; finished = false }
      | some created ↦ elim g.ready [
        | none ↦ record r { generations = (k, g) ∷ r.generations; finished = false }
        | some ready ↦ record {
          generations = (k, record g { recorded = true }) ∷ r.generations;
          finished = r.finished;
          latencies = (k, time_sub ready created) ∷ r.latencies;
        }
      ]
    ]

unfoldable pub record_new_ready_generations : List (ℤ × GenerationTimes) → Recorded
unfolding record_one
record_new_ready_generations [] = record { generations = []; finished = true; latencies = [] }
record_new_ready_generations ((k, g) ∷ gs) = record_one k g (record_new_ready_generations gs)

-- What `reconcile` leaves of the sorted values, which are those of the map.
pub record Reconciled : Type 0 where
  pub generations : Generations
  pub requeue : Bool
  pub latencies : List (ℤ × ℤ)
  pub backfilled : ℕ

unfoldable pub reconcile_sorted : List (ℤ × GenerationTimes) → Reconciled
reconcile_sorted sorted =
    let b = backfill_generations sorted in
    let r = record_new_ready_generations b.generations in
    record {
      generations = r.generations;
      requeue = not r.finished;
      latencies = r.latencies;
      backfilled = b.backfilled;
    }

unfoldable pub reconcile : Generations → Reconciled
reconcile generations = reconcile_sorted (sorted_values generations)

-- `Reconcile` for the object with a UID; a UID that is not known gets an entry.
unfoldable pub reconcile_object : String → Objects → Objects × Bool
unfolding lookup or_new
reconcile_object uid objects =
    let done = reconcile (or_new [] (lookup uid objects)) in
    (insert uid done.generations objects, done.requeue)

unfoldable pub record_spec_change : ℤ → Website → Objects → Objects
unfolding set
record_spec_change now website = set [] website.uid (set_generation_created website.generation now)

unfoldable pub record_status_generation : ℤ → Website → Objects → Objects
unfolding set
record_status_generation now website =
    set [] website.uid (set_generation_ready website.status.observed_generation now)

unfoldable pub observed_new_ready_generation : Seen Website → Seen Website → Bool
unfolding on_update
observed_new_ready_generation =
    on_update
      (λ old new. not (same_status old.status new.status) && new.status.phase == phase_ready)
