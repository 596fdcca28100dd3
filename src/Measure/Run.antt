-- ===== src/Measure/Run.antt =====
-- webhosting-operator/cmd/measure/main.go: the queries of a run, their results as tables, and the verdict.
pub mod Passed
use kubernetes_controller_sh.Base.{
  ℕ, suc, String, ◌==◌, Bool, true, false, not, ◌&&◌, ◌||◌, Option, none, some, List, [], ◌∷◌, ◌++◌,
  ◌+◌, length, map, if◌then◌else◌,
}
use kubernetes_controller_sh.Base.Int.{ℤ}
use kubernetes_controller_sh.Base.Map.{Map, lookup, string_key}
use kubernetes_controller_sh.Base.Result.{Result, ok, err, ◌>>=◌, ◌>>◌, wrap_err}
use kubernetes_controller_sh.Measure.{
  Float, MetricValue, Sample, SampleStream, Cursor, reset, Next, Read, panicked, out_of_fuel, read,
  is_empty, next_in_matrix, next_in_vector, read_all, verify_slo,
}

-- `metricData`
pub data MetricData (F : Type 0) : Type 0 where
  matrix : List (SampleStream F) → MetricData F
  vector : List (Map String String × Sample F) → MetricData F

-- `model.Value`: what Prometheus answers with.
pub data Value (F : Type 0) : Type 0 where
  matrix_value : List (SampleStream F) → Value F
  vector_value : List (Map String String × Sample F) → Value F
  other_value : Value F

pub record Query (F : Type 0) : Type 0 where
  pub name : String
  pub type : String
  pub query : String
  pub optional : Bool
  pub slo : Option F

pub data Failure (E : Type 0) : Type 0 where
  decoding preparing querying : E → Failure E
  unexpected_type unsupported : String → Failure E
  fetching : String → Failure E → Failure E
  empty_data : String → Failure E
  writing : E → Failure E
  writing_result : Failure E → Failure E
  slo_failed crashed : Failure E

-- The files, Prometheus, and the formats of the standard library.
pub record Env (f : Float) : Type 1 where
  pub E : Type 0
  pub decode_queries_config : Result E (List (Query f.Carrier))
  pub prepare_output_dir : Result E (Unit {0})
  pub query_range : String → Result E (Value f.Carrier)
  pub query : String → Result E (Value f.Carrier)
  -- `$__range` replaced by the duration of the range.
  pub replace_range : String → String
  -- The table as CSV: the file, or the standard output.
  pub write_csv : String → List (List String) → Result E (Unit {0})
  -- The name of the label that holds the name of a metric.
  pub metric_name_label : String
  pub output_prefix : String
  pub concat : String → String → String
  pub sort : List String → List String
  pub format_time : ℤ → String
  pub format_float : f.Carrier → String

unfoldable pub or_empty : Option String → String
or_empty none = ""
or_empty (some s) = s

unfoldable pub contains : String → List String → Bool
contains s [] = false
contains s (x ∷ xs) = (s == x) || contains s xs

unfoldable pub insert : String → List String → List String
unfolding contains
insert s xs = if contains s xs then xs else s ∷ xs

-- The labels of a metric but `skipped`, into the set.
unfoldable pub insert_labels : String → Map String String → List String → List String
unfolding insert
insert_labels skipped [] names = names
insert_labels skipped ((name, value) ∷ rest) names =
    let names' = insert_labels skipped rest names in
    if name == skipped then names' else insert name names'

unfoldable pub labels_of : String → List (Map String String) → List String
unfolding insert_labels
labels_of skipped [] = []
labels_of skipped (m ∷ ms) = insert_labels skipped m (labels_of skipped ms)

module _ {F : Type 0} where
  unfoldable pub metrics : MetricData F → List (Map String String)
  metrics (matrix m) = map (λ s. s.metric) m
  metrics (vector v) = map (λ s. s.0) v

  -- `GetLabelNames`
  unfoldable pub get_label_names : String → MetricData F → List String
  unfolding metrics labels_of
  get_label_names skipped d = labels_of skipped (metrics d)

  -- `IsEmpty`
  unfoldable pub data_empty : MetricData F → Bool
  unfolding is_empty
  data_empty (matrix m) = is_empty m
  data_empty (vector v) = is_empty v

  unfoldable pub samples_of : List (SampleStream F) → ℕ
  samples_of [] = 0
  samples_of (s ∷ ss) = length s.values + samples_of ss

  -- The values that a loop from `Reset` on reads.
  unfoldable pub read_data : MetricData F → Read (MetricValue F)
  unfolding read_all next_in_matrix next_in_vector samples_of
  read_data (matrix m) = read_all (next_in_matrix m) (suc (samples_of m)) reset
  read_data (vector v) = read_all (next_in_vector v) (suc (length v)) 0

module _ (f : Float) (env : Env f) where
  unfoldable pub as_matrix :
      String → Value f.Carrier → Result (Failure env.E) (MetricData f.Carrier)
  as_matrix name (matrix_value m) = ok (matrix m)
  as_matrix name (vector_value v) = err (unexpected_type name)
  as_matrix name other_value = err (unexpected_type name)

  unfoldable pub as_vector :
      String → Value f.Carrier → Result (Failure env.E) (MetricData f.Carrier)
  as_vector name (vector_value v) = ok (vector v)
  as_vector name (matrix_value m) = err (unexpected_type name)
  as_vector name other_value = err (unexpected_type name)

  -- `fetchData`
  unfoldable pub fetch_data : Query f.Carrier → Result (Failure env.E) (MetricData f.Carrier)
  unfolding as_matrix as_vector ◌>>=◌
  fetch_data q =
      if (q.type == "range") || (q.type == "")
      then (wrap_err querying (env.query_range q.query) >>= as_matrix q.name)
      else (if q.type == "instant"
          then (wrap_err querying (env.query (env.replace_range q.query)) >>= as_vector q.name)
          else err (unsupported q.type))

  unfoldable pub label_values : List String → Map String String → List String
  unfolding lookup or_empty
  label_values [] metric = []
  label_values (name ∷ names) metric = or_empty (lookup name metric) ∷ label_values names metric

  unfoldable pub row : List String → MetricValue f.Carrier → List String
  unfolding label_values
  row names x = env.format_time x.time ∷ (env.format_float x.value ∷ label_values names x.metric)

  unfoldable pub write_rows :
      String → List String → Read (MetricValue f.Carrier) → Result (Failure env.E) (Unit {0})
  unfolding row
  write_rows name names panicked = err crashed
  write_rows name names out_of_fuel = err crashed
  write_rows name names (read xs) =
      wrap_err writing (env.write_csv name (("ts" ∷ ("value" ∷ names)) ∷ map (row names) xs))

  -- `writeResult`
  unfoldable pub write_result :
      Query f.Carrier → MetricData f.Carrier → Result (Failure env.E) (Unit {0})
  unfolding write_rows get_label_names read_data
  write_result q d =
      write_rows (env.concat (env.concat env.output_prefix q.name) ".csv")
        (env.sort (get_label_names env.metric_name_label d)) (read_data d)

  unfoldable pub verify_data : Query f.Carrier → MetricData f.Carrier → Option (Bool × Bool)
  unfolding verify_slo next_in_matrix next_in_vector samples_of
  verify_data q (matrix m) = verify_slo f q.slo (next_in_matrix m) (suc (samples_of m)) reset
  verify_data q (vector v) = verify_slo f q.slo (next_in_vector v) (suc (length v)) 0

  -- Whether an objective was checked, and whether all were met.
  abbrev pub Verdict : Type 0
  Verdict = Result (Failure env.E) (Bool × Bool)

  unfoldable pub after_slo : (Bool → Bool → Verdict) → Bool → Bool → Option (Bool × Bool) → Verdict
  after_slo k checked met none = err crashed
  after_slo k checked met (some (false, holds)) = k checked met
  after_slo k checked met (some (true, true)) = k true met
  after_slo k checked met (some (true, false)) = k true false

  unfoldable pub after_fetch :
      Query f.Carrier → (Bool → Bool → Verdict) → Bool → Bool → MetricData f.Carrier → Verdict
  unfolding after_slo verify_data write_result data_empty ◌>>=◌
  after_fetch q k checked met d =
      if data_empty d
      then (if q.optional then k checked met else err (empty_data q.name))
      else (wrap_err writing_result (write_result q d) >>= λ _.
          after_slo k checked met (verify_data q d))

  -- The loop over the queries.
  unfoldable pub run_queries : List (Query f.Carrier) → Bool → Bool → Verdict
  unfolding after_fetch fetch_data ◌>>=◌
  run_queries [] checked met = ok (checked, met)
  run_queries (q ∷ qs) checked met =
      wrap_err (fetching q.name) (fetch_data q)
      >>= after_fetch q (λ c m. run_queries qs c m) checked met

  unfoldable pub finish : Bool × Bool → Result (Failure env.E) (Unit {0})
  finish (checked, met) = if checked && not met then err slo_failed else ok tt

  unfoldable pub run : Result (Failure env.E) (Unit {0})
  unfolding run_queries finish ◌>>=◌ ◌>>◌
  run = wrap_err decoding env.decode_queries_config >>= λ qs.
      wrap_err preparing env.prepare_output_dir >> (run_queries qs false true >>= finish)
