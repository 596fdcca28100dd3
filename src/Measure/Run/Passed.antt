-- ===== src/Measure/Run/Passed.antt =====
-- webhosting-operator/cmd/measure/main.go: what a run that ends without an error has done.
use kubernetes_controller_sh.Base.{
  ℕ, ap, ◌∙◌, ◌≡◌, refl, sym, ◌⊎◌, inl, inr, Bool, true, false, Option, none, some, List, [], ◌∷◌,
  In,
}
use mathlib.Core.Path.{subst}
use kubernetes_controller_sh.Base.Result.{ok, >>=-eq-ok, >>-eq-ok, wrap_err-eq-ok, if-eq}
use kubernetes_controller_sh.Measure.{
  Float, MetricValue, Next, Read, panicked, out_of_fuel, read, read_all, verdict, verify_slo,
}
use kubernetes_controller_sh.Measure.Visited.{Meets, failures-Meets}
use kubernetes_controller_sh.Measure.Run.{
  MetricData, matrix, vector, read_data, Query, Env, fetch_data, data_empty, write_result,
  verify_data, after_slo, after_fetch, run_queries, finish, run, Verdict,
}

-- There is no objective, or each of the values that the loop over the result reads meets it.
unfoldable pub IsMet : (f : Float) → Option f.Carrier → Read (MetricValue f.Carrier) → Type 0
IsMet f slo values =
    (slo ≡ none)
    ⊎ ((limit : f.Carrier) × (xs : List (MetricValue f.Carrier)) × (slo ≡ some limit)
        × (values ≡ read xs)
        × ((x : MetricValue f.Carrier) → In x xs → Meets f limit x))

-- There was nothing to check, or the objective is met.
unfoldable pub Met : Option (Bool × Bool) → Type 0
Met v = (r : Bool × Bool) × (v ≡ some r) × (r.0 ≡ true → r.1 ≡ true)

pair_inj : (p r : Bool × Bool) → some p ≡ some r → p ≡ r
pair_inj p r h = cc

module _ (f : Float) (env : Env f) where
  -- The result of the query is written and meets its objective, or it is empty and optional.
  unfoldable pub Settled : Query f.Carrier → MetricData f.Carrier → Type 0
  unfolding IsMet
  Settled q d =
      ((data_empty d ≡ true) × (q.optional ≡ true))
      ⊎ ((data_empty d ≡ false) × (write_result f env q d ≡ ok tt) × IsMet f q.slo (read_data d))

  unfoldable pub Passed : Query f.Carrier → Type 0
  unfolding Settled
  Passed q = (d : MetricData f.Carrier) × (fetch_data f env q ≡ ok d) × Settled q d

  verdict-IsMet :
      (limit : f.Carrier) (values : Read (MetricValue f.Carrier))
      → Met (verdict f limit values)
      → IsMet f (some limit) values
  unfolding verdict Met IsMet
  verdict-IsMet limit panicked (r, e, met) = absurd (cc e)
  verdict-IsMet limit out_of_fuel (r, e, met) = absurd (cc e)
  verdict-IsMet limit (read xs) (r, e, met) =
      let same = pair_inj _ r e in
      inr (
        limit,
        xs,
        refl,
        refl,
        (failures-Meets f limit xs).0 (ap (λ p. p.1) same ∙ met (sym (ap (λ p. p.0) same))),
      )

  verify_slo-IsMet :
      {C : Type 0} (slo : Option f.Carrier) (next : C → Next f.Carrier C) (n : ℕ) (start : C)
      → Met (verify_slo f slo next n start)
      → IsMet f slo (read_all next n start)
  unfolding verify_slo IsMet
  verify_slo-IsMet none next n start h = inl refl
  verify_slo-IsMet (some limit) next n start h = verdict-IsMet limit (read_all next n start) h

  verify_data-IsMet :
      (q : Query f.Carrier) (d : MetricData f.Carrier)
      → Met (verify_data f env q d)
      → IsMet f q.slo (read_data d)
  unfolding verify_data read_data
  verify_data-IsMet q (matrix m) h = verify_slo-IsMet q.slo _ _ _ h
  verify_data-IsMet q (vector v) h = verify_slo-IsMet q.slo _ _ _ h

  -- The loop goes on, and what it goes on with tells whether `P` holds of this query.
  abbrev Continues : (Bool → Bool → Verdict f env) → Bool → Bool → Bool × Bool → Type 0 → Type 0
  Continues k checked met b P =
      (c : Bool) × (m : Bool) × (k c m ≡ ok b)
      × ((checked ≡ false → met ≡ true) → c ≡ false → m ≡ true)
      × (m ≡ true → (met ≡ true) × P)

  after_slo-Continues :
      (k : Bool → Bool → Verdict f env) (checked met : Bool) (v : Option (Bool × Bool))
      {b : Bool × Bool}
      → after_slo f env k checked met v ≡ ok b
      → Continues k checked met b (Met v)
  unfolding after_slo Met
  after_slo-Continues k checked met none h = absurd (cc h)
  after_slo-Continues k checked met (some (false, holds)) h =
      (checked, met, h, λ inv. inv, λ e. (e, ((false, holds), refl, λ bad. absurd (cc bad))))
  after_slo-Continues k checked met (some (true, true)) h =
      (true, met, h, λ _ e. absurd (cc e), λ e. (e, ((true, true), refl, λ _. refl)))
  after_slo-Continues k checked met (some (true, false)) h =
      (true, false, h, λ _ e. absurd (cc e), λ e. absurd (cc e))

  after_fetch-Continues :
      (q : Query f.Carrier) (k : Bool → Bool → Verdict f env) (checked met : Bool)
      (d : MetricData f.Carrier) {b : Bool × Bool}
      → after_fetch f env q k checked met d ≡ ok b
      → Continues k checked met b (Settled q d)
  unfolding after_fetch Settled
  after_fetch-Continues q k checked met d h = elim (if-eq (data_empty d) _ _ h) [
    | inl (nothing, h') ↦ elim (if-eq q.optional _ _ h') [
      | inl (optional, h'') ↦ (checked, met, h'', λ inv. inv, λ e. (e, inl (nothing, optional)))
      | inr (_, bad) ↦ absurd (cc bad)
    ]
    | inr (filled, h') ↦
        let (_, e, rest) = >>=-eq-ok _ _ h' in
        let wrote = wrap_err-eq-ok _ _ e in
        let (c, m, next, inv, back) = after_slo-Continues k checked met _ rest in
        (
          c,
          m,
          next,
          inv,
          λ all.
              let (met_before, holds) = back all in
              (met_before, inr (filled, wrote, verify_data-IsMet q d holds)),
        )
  ]

  run_queries-Passed :
      (qs : List (Query f.Carrier)) (checked met c m : Bool)
      → run_queries f env qs checked met ≡ ok (c, m)
      → ((checked ≡ false → met ≡ true) → c ≡ false → m ≡ true)
        × (m ≡ true → (met ≡ true) × ((q : Query f.Carrier) → In q qs → Passed q))
  unfolding run_queries Passed
  run_queries-Passed [] checked met c m h =
      (λ inv e. cc (inv (cc (h, e)), h), λ e. (cc (h, e), λ q i. absurd i))
  run_queries-Passed (q ∷ qs) checked met c m h =
      let (d, e, rest) = >>=-eq-ok _ _ h in
      let fetched = wrap_err-eq-ok _ _ e in
      let (c1, m1, next, inv, back) =
        after_fetch-Continues q (λ x y. run_queries f env qs x y) checked met d rest in
      let (inv', back') = run_queries-Passed qs c1 m1 c m next in
      (
        λ start. inv' (inv start),
        λ all.
            let (met1, later) = back' all in
            let (met0, settled) = back met1 in
            (
              met0,
              λ p i. elim i [
                | inl same ↦ subst Passed (sym same) (d, fetched, settled)
                | inr j ↦ later p j
              ],
            ),
      )

  finish_met : (c m : Bool) → (c ≡ false → m ≡ true) → finish f env (c, m) ≡ ok tt → m ≡ true
  unfolding finish
  finish_met c true inv h = refl
  finish_met true false inv h = absurd (cc h)
  finish_met false false inv h = inv refl

  -- A run that ends without an error has decoded the queries and prepared the output, and for each
  -- of the queries it has fetched a result that either is empty, where the query is optional, or
  -- is not empty and is written, and the query has no objective or each value that is read from the
  -- result is NaN or at most the objective.
  pub run-Passed :
      run f env ≡ ok tt
      → (qs : List (Query f.Carrier)) × (env.decode_queries_config ≡ ok qs)
        × (env.prepare_output_dir ≡ ok tt)
        × ((q : Query f.Carrier) → In q qs → Passed q)
  unfolding run finish
  run-Passed h =
      let (qs, e, h1) = >>=-eq-ok _ _ h in
      let (p, h2) = >>-eq-ok _ _ h1 in
      let ((c, m), loop, end) = >>=-eq-ok _ _ h2 in
      let (inv, back) = run_queries-Passed qs false true c m loop in
      let met = finish_met c m (λ none. inv (λ _. refl) none) end in
      (qs, wrap_err-eq-ok _ _ e, wrap_err-eq-ok _ _ p, (back met).1)
