-- ===== src/Measure.antt =====
-- webhosting-operator/cmd/measure/main.go: reading the results of queries, and the objectives on them.
pub mod Run
pub mod Visited
use kubernetes_controller_sh.Base.{
  ℕ, zero, suc, String, Bool, true, false, ◌||◌, Option, none, some, List, [], ◌∷◌, length, leb,
  if◌then◌else◌,
}
use kubernetes_controller_sh.Base.Int.{ℤ, negsuc, eq_ℤ}
use kubernetes_controller_sh.Base.Map.{Map}

-- A float64, with Go's comparison and `math.IsNaN`.
pub record Float : Type 1 where
  pub Carrier : Type 0
  pub le : Carrier → Carrier → Bool
  pub is_nan : Carrier → Bool

-- Go's zero time, in nanoseconds from 1970 on.
abbrev pub zero_time : ℤ
zero_time = negsuc 62_135_596_799_999_999_999

-- `a[i]`: nothing where the code panics.
unfoldable pub index : {A : Type 0} → List A → ℕ → Option A
index [] i = none
index (x ∷ xs) zero = some x
index (x ∷ xs) (suc i) = index xs i

unfoldable pub is_empty : {A : Type 0} → List A → Bool
is_empty [] = true
is_empty (x ∷ xs) = false

-- What a loop over the values ends with.
pub data Read (A : Type 0) : Type 0 where
  panicked out_of_fuel : Read A
  read : List A → Read A

unfoldable pub then_read : {A : Type 0} → A → Read A → Read A
then_read x panicked = panicked
then_read x out_of_fuel = out_of_fuel
then_read x (read xs) = read (x ∷ xs)

pub record MetricValue (F : Type 0) : Type 0 where
  pub metric : Map String String
  pub time : ℤ
  pub value : F

pub record Sample (F : Type 0) : Type 0 where
  pub time : ℤ
  pub value : F

pub record SampleStream (F : Type 0) : Type 0 where
  pub metric : Map String String
  pub values : List (Sample F)

-- The cursor of `matrixData`.
pub record Cursor : Type 0 where
  pub metric : ℕ
  pub value : ℕ

abbrev pub reset : Cursor
reset = record { metric = 0; value = 0 }

-- `NextValue` answers with `none` for the zero value; it panics where it indexes out of range.
abbrev pub Next : Type 0 → Type 0 → Type 0
Next F C = Option (Option (MetricValue F) × C)

module _ {F : Type 0} where
  -- The end of `matrixData.NextValue`: the sample under the cursor.
  unfoldable pub sample_at : Cursor → Map String String → Option (Sample F) → Next F Cursor
  sample_at c metric none = none
  sample_at c metric (some x) = some (
    some (record { metric = metric; time = x.time; value = x.value }),
    record c { value = suc c.value },
  )

  unfoldable pub stream_at : Cursor → Option (SampleStream F) → Next F Cursor
  unfolding sample_at index
  stream_at c none = none
  stream_at c (some s) = sample_at c s.metric (index s.values c.value)

  unfoldable pub moved : Cursor → SampleStream F → Cursor
  moved c s =
      if leb (length s.values) c.value then record { metric = suc c.metric; value = 0 } else c

  unfoldable pub after_move : List (SampleStream F) → Cursor → Next F Cursor
  unfolding stream_at index
  after_move m c =
      if leb (length m) c.metric then some (none, c) else stream_at c (index m c.metric)

  unfoldable pub with_stream :
      List (SampleStream F) → Cursor → Option (SampleStream F) → Next F Cursor
  unfolding moved after_move
  with_stream m c none = none
  with_stream m c (some s) = after_move m (moved c s)

  unfoldable pub next_in_matrix : List (SampleStream F) → Cursor → Next F Cursor
  unfolding with_stream is_empty index
  next_in_matrix m c = if is_empty m then some (none, c) else with_stream m c (index m c.metric)

  -- `vectorData.NextValue`
  unfoldable pub value_at : ℕ → Option (Map String String × Sample F) → Next F ℕ
  value_at c none = none
  value_at c (some (metric, x)) =
      some (some (record { metric = metric; time = x.time; value = x.value }), suc c)

  unfoldable pub next_in_vector : List (Map String String × Sample F) → ℕ → Next F ℕ
  unfolding value_at is_empty index
  next_in_vector v c =
      if is_empty v
      then some (none, c)
      else (if leb (length v) c then some (none, c) else value_at c (index v c))

  -- `IsZero`
  unfoldable pub is_zero : MetricValue F → Bool
  is_zero x = eq_ℤ x.time zero_time

  unfoldable pub step_read : Read (MetricValue F) → MetricValue F → Read (MetricValue F)
  unfolding is_zero then_read
  step_read rest x = if is_zero x then read [] else then_read x rest

  -- The loop that both `writeResult` and `verifySLO` make.
  unfoldable pub read_all : {C : Type 0} → (C → Next F C) → ℕ → C → Read (MetricValue F)
  unfolding step_read
  read_all next zero c = out_of_fuel
  read_all next (suc n) c = elim (next c) [
    | none ↦ panicked
    | some (none, d) ↦ read []
    | some (some x, d) ↦ step_read (read_all next n d) x
  ]

-- The values that are neither NaN nor at most the objective.
unfoldable pub failures :
    (f : Float) → f.Carrier → List (MetricValue f.Carrier) → List (MetricValue f.Carrier)
failures f slo [] = []
failures f slo (x ∷ xs) =
    let rest = failures f slo xs in if f.is_nan x.value || f.le x.value slo then rest else x ∷ rest

-- The end of `verifySLO`: there was something to check, and whether the objective is met.
unfoldable pub verdict :
    (f : Float) → f.Carrier → Read (MetricValue f.Carrier) → Option (Bool × Bool)
unfolding failures is_empty
verdict f slo panicked = none
verdict f slo out_of_fuel = none
verdict f slo (read xs) = some (true, is_empty (failures f slo xs))

-- `verifySLO`, reading with `next` from the cursor `start` on.
unfoldable pub verify_slo :
    {C : Type 0} (f : Float)
    → Option f.Carrier
    → (C → Next f.Carrier C)
    → ℕ
    → C
    → Option (Bool × Bool)
unfolding verdict read_all
verify_slo f none next n start = some (false, true)
verify_slo f (some slo) next n start = verdict f slo (read_all next n start)
