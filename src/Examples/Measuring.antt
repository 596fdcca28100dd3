-- ===== src/Examples/Measuring.antt =====
-- A run with one query, whose result is a series of two values.
use kubernetes_controller_sh.Base.{ℕ, ◌≡◌, refl, ◌↔◌, true, false, some, List, [], ◌∷◌, leb, In}
use kubernetes_controller_sh.Base.Int.{pos, eq_ℤ}
use kubernetes_controller_sh.Base.Result.{ok}
use kubernetes_controller_sh.Measure.{
  Float, MetricValue, SampleStream, reset, read, next_in_matrix, read_all, verify_slo,
}
use kubernetes_controller_sh.Measure.Visited.{all_values, Filled, Dated, Meets, verify_slo-Meets}
use kubernetes_controller_sh.Measure.Run.{Env, Query, matrix_value, run}
use kubernetes_controller_sh.Measure.Run.Passed.{Passed, run-Passed}

abbrev whole : Float
whole = record { Carrier = ℕ; le = leb; is_nan = λ _. false }

abbrev result : List (SampleStream ℕ)
result =
    record {
      metric = ("ring", "a") ∷ [];
      values = record { time = pos 1; value = 3 } ∷ (record { time = pos 2; value = 4 } ∷ []);
    }
    ∷ []

verify_slo-Meets_example :
    (read_all (next_in_matrix result) 3 reset ≡ read (all_values result))
    × ((verify_slo whole (some 4) (next_in_matrix result) 3 reset ≡ some (true, true))
        ↔ ((x : MetricValue ℕ) → In x (all_values result) → Meets whole 4 x))
unfolding Filled Dated all_values eq_ℤ
verify_slo-Meets_example = verify_slo-Meets whole 4 result (refl, tt) (refl, (refl, tt))

abbrev latency : Query ℕ
latency = record { name = "latency"; type = ""; query = "q"; optional = false; slo = some 4 }

abbrev prometheus : Env whole
prometheus = record {
  E = ℕ;
  decode_queries_config = ok (latency ∷ []);
  prepare_output_dir = ok tt;
  query_range = λ _. ok (matrix_value result);
  query = λ _. ok (matrix_value []);
  replace_range = λ q. q;
  write_csv = λ _ _. ok tt;
  metric_name_label = "__name__";
  output_prefix = "";
  concat = λ a b. a;
  sort = λ names. names;
  format_time = λ _. "";
  format_float = λ _. "";
}

run-Passed_example :
    (qs : List (Query ℕ)) × (prometheus.decode_queries_config ≡ ok qs)
    × (prometheus.prepare_output_dir ≡ ok tt)
    × ((q : Query ℕ) → In q qs → Passed whole prometheus q)
unfolding run eq_ℤ
run-Passed_example = run-Passed whole prometheus refl
