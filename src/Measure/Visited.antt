-- ===== src/Measure/Visited.antt =====
-- webhosting-operator/cmd/measure/main.go: what a loop with the cursor of a matrix visits.
use kubernetes_controller_sh.Base.{
  ℕ, zero, suc, String, ◌≡◌, refl, sym, ap, ◌↔◌, inl, inr, true, false, ◌||◌, none, some, List, [],
  ◌∷◌, length, leb, In, arith, Bool-cases,
}
use mathlib.Core.Path.{subst}
use kubernetes_controller_sh.Base.Map.{Map}
use kubernetes_controller_sh.Measure.{
  Float, MetricValue, Sample, SampleStream, Cursor, reset, Next, read, then_read, index, is_empty,
  sample_at, stream_at, moved, after_move, with_stream, next_in_matrix, is_zero, step_read,
  read_all, failures, verdict, verify_slo,
}

unfoldable drop : {A : Type 0} → ℕ → List A → List A
drop zero xs = xs
drop (suc i) [] = []
drop (suc i) (x ∷ xs) = drop i xs

module _ {A : Type 0} where
  drop-next :
      (xs : List A) (i : ℕ) (x : A) (rest : List A)
      → drop i xs ≡ x ∷ rest
      → (index xs i ≡ some x) × (drop (suc i) xs ≡ rest) × (leb (length xs) i ≡ false)
  unfolding drop index
  drop-next [] zero x rest h = absurd (cc h)
  drop-next [] (suc i) x rest h = absurd (cc h)
  drop-next (y ∷ ys) zero x rest h = (cc h, cc h, ground arith)
  drop-next (y ∷ ys) (suc i) x rest h =
      let (found, next, lt) = drop-next ys i x rest h in (found, next, ground (arith, lt))

  drop-end : (xs : List A) (i : ℕ) → drop i xs ≡ [] → leb (length xs) i ≡ true
  unfolding drop
  drop-end [] i h = ground arith
  drop-end (y ∷ ys) zero h = absurd (cc h)
  drop-end (y ∷ ys) (suc i) h = let e = drop-end ys i h in ground (arith, e)

unfoldable at : ℕ → ℕ → Cursor
at i j = record { metric = i; value = j }

module _ {F : Type 0} where
  unfoldable value_of : Map String String → Sample F → MetricValue F
  value_of metric x = record { metric = metric; time = x.time; value = x.value }

  -- The values of a series, and then those that come after them.
  unfoldable series :
      Map String String → List (Sample F) → List (MetricValue F) → List (MetricValue F)
  unfolding value_of
  series metric [] after = after
  series metric (x ∷ xs) after = value_of metric x ∷ series metric xs after

  -- All values of a matrix, in its order.
  unfoldable pub all_values : List (SampleStream F) → List (MetricValue F)
  unfolding series
  all_values [] = []
  all_values (s ∷ ss) = series s.metric s.values (all_values ss)

  -- Every series has a sample.
  unfoldable pub Filled : List (SampleStream F) → Type 0
  unfolding is_empty
  Filled [] = Unit
  Filled (s ∷ ss) = (is_empty s.values ≡ false) × Filled ss

  -- No value is at the zero time.
  unfoldable pub Dated : List (MetricValue F) → Type 0
  unfolding is_zero
  Dated [] = Unit
  Dated (x ∷ xs) = (is_zero x ≡ false) × Dated xs

  next-sample :
      (m : List (SampleStream F)) (i j : ℕ) (s : SampleStream F) (post : List (SampleStream F))
      (x : Sample F) (rest : List (Sample F))
      → drop i m ≡ s ∷ post
      → drop j s.values ≡ x ∷ rest
      → next_in_matrix m (at i j) ≡ some (some (value_of s.metric x), at i (suc j))
  unfolding next_in_matrix with_stream moved after_move stream_at sample_at value_of is_empty at
      index
  next-sample [] i j s post x rest h g =
      let (found, _, _) = drop-next [] i s post h in absurd (cc found)
  next-sample (t ∷ ts) i j s post x rest h g =
      let (found, after, below) = drop-next (t ∷ ts) i s post h in
      let (sample, later, within) = drop-next s.values j x rest g in
      simp (found, sample, below, within)

  next-stream :
      (m : List (SampleStream F)) (i j : ℕ) (s t : SampleStream F) (post : List (SampleStream F))
      (x : Sample F) (rest : List (Sample F))
      → drop i m ≡ s ∷ (t ∷ post)
      → drop j s.values ≡ []
      → t.values ≡ x ∷ rest
      → next_in_matrix m (at i j) ≡ some (some (value_of t.metric x), at (suc i) 1)
  unfolding next_in_matrix with_stream moved after_move stream_at sample_at value_of is_empty at
      index
  next-stream [] i j s t post x rest h g e =
      let (found, _, _) = drop-next [] i s (t ∷ post) h in absurd (cc found)
  next-stream (u ∷ us) i j s t post x rest h g e =
      let (found, after, _) = drop-next (u ∷ us) i s (t ∷ post) h in
      let (moved, _, below) = drop-next (u ∷ us) (suc i) t post after in
      let done = drop-end s.values j g in simp (found, done, below, moved, e)

  next-end :
      (m : List (SampleStream F)) (i j : ℕ) (s : SampleStream F)
      → drop i m ≡ s ∷ []
      → drop j s.values ≡ []
      → next_in_matrix m (at i j) ≡ some (none, at (suc i) 0)
  unfolding next_in_matrix with_stream moved after_move is_empty at index
  next-end [] i j s h g = let (found, _, _) = drop-next [] i s [] h in absurd (cc found)
  next-end (u ∷ us) i j s h g =
      let (found, after, _) = drop-next (u ∷ us) i s [] h in
      let over = drop-end (u ∷ us) (suc i) after in
      let done = drop-end s.values j g in simp (found, done, over)

  read_all-step :
      {C : Type 0} (next : C → Next F C) (n : ℕ) (c d : C) (x : MetricValue F)
      (xs : List (MetricValue F))
      → next c ≡ some (some x, d)
      → is_zero x ≡ false
      → read_all next n d ≡ read xs
      → read_all next (suc n) c ≡ read (x ∷ xs)
  unfolding read_all step_read then_read
  read_all-step next n c d x xs e dated rest = rw (read_all, e, dated, rest) refl

  read_all-end :
      {C : Type 0} (next : C → Next F C) (c d : C)
      → next c ≡ some (none, d)
      → read_all next 1 c ≡ read []
  unfolding read_all
  read_all-end next c d e = rw (read_all, e) refl

  -- Within a series, given what is read from its end on.
  within :
      (m : List (SampleStream F)) (i j : ℕ) (s : SampleStream F) (post : List (SampleStream F))
      (rest : List (Sample F)) (after : List (MetricValue F))
      → drop i m ≡ s ∷ post
      → drop j s.values ≡ rest
      → Dated (series s.metric rest after)
      → ((k : ℕ)
          → drop k s.values ≡ []
          → Dated after
          → read_all (next_in_matrix m) (suc (length after)) (at i k) ≡ read after)
      → read_all (next_in_matrix m) (suc (length (series s.metric rest after))) (at i j)
        ≡ read (series s.metric rest after)
  unfolding series Dated
  within m i j s post [] after h g dated ends = ends j g dated
  within m i j s post (x ∷ xs) after h g (dated, later) ends =
      let (_, next, _) = drop-next s.values j x xs g in
      read_all-step (next_in_matrix m) _ _ _ _ _ (next-sample m i j s post x xs h g) dated
        (within m i (suc j) s post xs after h next later ends)

  -- Into the next series.
  into_series :
      (m : List (SampleStream F)) (i j : ℕ) (s t : SampleStream F) (post : List (SampleStream F))
      (values : List (Sample F)) (after : List (MetricValue F))
      → t.values ≡ values
      → is_empty values ≡ false
      → drop i m ≡ s ∷ (t ∷ post)
      → drop j s.values ≡ []
      → Dated (series t.metric values after)
      → ((k : ℕ)
          → drop k t.values ≡ []
          → Dated after
          → read_all (next_in_matrix m) (suc (length after)) (at (suc i) k) ≡ read after)
      → read_all (next_in_matrix m) (suc (length (series t.metric values after))) (at i j)
        ≡ read (series t.metric values after)
  unfolding series Dated is_empty drop
  into_series m i j s t post [] after e filled h g dated ends = absurd (cc filled)
  into_series m i j s t post (x ∷ xs) after e filled h g (dated, later) ends =
      let (_, next, _) = drop-next m i s (t ∷ post) h in
      let (_, values, _) = drop-next t.values 0 x xs e in
      read_all-step (next_in_matrix m) _ _ _ _ _ (next-stream m i j s t post x xs h g e) dated
        (within m (suc i) 1 t post xs after next values later ends)

  -- From the end of a series on, the values of the series after it.
  after_series :
      (m : List (SampleStream F)) (i j : ℕ) (s : SampleStream F) (post : List (SampleStream F))
      → drop i m ≡ s ∷ post
      → drop j s.values ≡ []
      → Filled post
      → Dated (all_values post)
      → read_all (next_in_matrix m) (suc (length (all_values post))) (at i j)
        ≡ read (all_values post)
  unfolding all_values Filled Dated series
  after_series m i j s [] h g filled dated =
      read_all-end (next_in_matrix m) _ _ (next-end m i j s h g)
  after_series m i j s (t ∷ post) h g (filled, all) dated =
      let (_, next, _) = drop-next m i s (t ∷ post) h in
      into_series m i j s t post t.values (all_values post) refl filled h g dated
        (λ k end rest. after_series m (suc i) k t post next end all rest)

  -- Reading a matrix whose series all have samples, none of them at the zero time, visits all of
  -- its samples in its order, and ends.
  pub read_all-all_values :
      (m : List (SampleStream F))
      → Filled m
      → Dated (all_values m)
      → read_all (next_in_matrix m) (suc (length (all_values m))) reset ≡ read (all_values m)
  unfolding all_values Filled Dated at drop next_in_matrix is_empty
  read_all-all_values [] filled dated = read_all-end (next_in_matrix []) reset reset refl
  read_all-all_values (s ∷ ss) (filled, all) dated =
      within (s ∷ ss) 0 0 s ss s.values (all_values ss) refl refl dated
        (λ k end rest. after_series (s ∷ ss) 0 k s ss refl end all rest)

-- The value does not break the objective.
unfoldable pub Meets : (f : Float) → f.Carrier → MetricValue f.Carrier → Type 0
Meets f slo x = (f.is_nan x.value || f.le x.value slo) ≡ true

module _ (f : Float) (slo : f.Carrier) where
  pub failures-Meets :
      (xs : List (MetricValue f.Carrier))
      → (is_empty (failures f slo xs) ≡ true)
        ↔ ((x : MetricValue f.Carrier) → In x xs → Meets f slo x)
  unfolding failures is_empty Meets
  failures-Meets [] = (λ _ x i. absurd i, λ _. refl)
  failures-Meets (x ∷ xs) =
      let (into, out) = failures-Meets xs in
      elim (Bool-cases (f.is_nan x.value || f.le x.value slo)) [
        | inl met ↦ rw (met) (
          λ none y i. elim i [
            | inl same ↦ subst (Meets f slo) (sym same) met
            | inr i ↦ into none y i
          ],
          λ all. out (λ y i. all y (inr i)),
        )
        | inr broken ↦
            rw (broken) (λ none. absurd (cc none), λ all. absurd (cc (all x (inl refl), broken)))
      ]

  -- For a matrix whose series all have samples, none of them at the zero time, the loop over its
  -- values visits all samples, series by series, and ends, and `verifySLO` answers that the
  -- objective is met exactly if each of the values is NaN or at most the objective.
  pub verify_slo-Meets :
      (m : List (SampleStream f.Carrier))
      → Filled m
      → Dated (all_values m)
      → (read_all (next_in_matrix m) (suc (length (all_values m))) reset ≡ read (all_values m))
        × ((verify_slo f (some slo) (next_in_matrix m) (suc (length (all_values m))) reset
              ≡ some (true, true))
            ↔ ((x : MetricValue f.Carrier) → In x (all_values m) → Meets f slo x))
  unfolding verify_slo verdict
  verify_slo-Meets m filled dated =
      let all = read_all-all_values m filled dated in
      let (into, out) = failures-Meets (all_values m) in
      (all, rw (all) (λ e. into (cc e), λ met. ap (λ b. some (true, b)) (out met)))
