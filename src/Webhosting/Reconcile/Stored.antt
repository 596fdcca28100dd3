-- ===== src/Webhosting/Reconcile/Stored.antt =====
-- webhosting-operator/pkg/controllers/webhosting/website_controller.go: the status that is stored.
use kubernetes_controller_sh.Base.{
  eq_iff, ◌≡◌, ◌≢◌, refl, sym, ◌∙◌, ◌↔◌, inl, inr, true, false, Bool-cases, Option, none, some,
  arith,
}
use kubernetes_controller_sh.Base.Int.{ℤ, eq_ℤ_iff}
use kubernetes_controller_sh.Webhosting.{Website, WebsiteStatus}
use kubernetes_controller_sh.Webhosting.Reconcile.{Env, eq_time, same_status, new_status, reconcile}

true-false : true ≢ false
true-false e = cc

eq_time_refl : (a : Option ℤ) → eq_time a a ≡ true
unfolding eq_time
eq_time_refl none = refl
eq_time_refl (some a) = (eq_ℤ_iff a a).1 refl

eq_time-same : (a b : Option ℤ) → a ≡ b → eq_time a b ≡ true
eq_time-same a b e = rw e (eq_time_refl b)

same_status_iff :
    (a b : WebsiteStatus)
    → a.last_transition_time ≡ b.last_transition_time
    → (same_status a b ≡ true)
      ↔ ((a.observed_generation ≡ b.observed_generation) × (a.phase ≡ b.phase))
unfolding same_status
same_status_iff a b t =
    let q = eq_time-same a.last_transition_time b.last_transition_time t in
    ground (arith, q, eq_ℤ_iff a.observed_generation b.observed_generation, eq_iff a.phase b.phase)

-- The status that the API server has afterwards: that of the update, or the old one.
pub stored : Website → Option Website → WebsiteStatus
stored website none = website.status
stored website (some updated) = updated.status

module _ (env : Env) (website : Website) where
  new_status-kept :
      (website.status.last_transition_time ≡ (new_status env website).last_transition_time)
      × ((new_status env website).observed_generation ≡ website.generation)
  unfolding new_status
  new_status-kept = (refl, refl)

  same_iff : (same_status website.status (new_status env website) ≡ true) ↔ (
      (website.status.observed_generation ≡ website.generation)
      × (website.status.phase ≡ (new_status env website).phase))
  same_iff =
      let (same, iff) =
        same_status_iff website.status (new_status env website) (new_status-kept.0) in
      let g = new_status-kept.1 in
      (λ h. let (o, p) = same h in (o ∙ g, p), λ (o, p). iff (o ∙ sym g, p))

  -- After a reconciliation whose update succeeds, if there is one, the stored status has the
  -- generation of the website and the phase that was found.
  pub reconcile-stored :
      ((stored website (reconcile env website).update).observed_generation ≡ website.generation)
      × ((stored website (reconcile env website).update).phase ≡ (new_status env website).phase)
  unfolding reconcile stored
  reconcile-stored = elim (Bool-cases (same_status website.status (new_status env website))) [
    | inl e ↦ rw e (same_iff.0 e)
    | inr e ↦ rw e (new_status-kept.1, refl)
  ]

  -- No update of the status is sent exactly if the generation and the phase were stored already.
  pub reconcile-quiet : ((reconcile env website).update ≡ none) ↔ (
      (website.status.observed_generation ≡ website.generation)
      × (website.status.phase ≡ (new_status env website).phase))
  unfolding reconcile
  reconcile-quiet = elim (Bool-cases (same_status website.status (new_status env website))) [
    | inl e ↦ rw e (λ _. same_iff.0 e, λ _. refl)
    | inr e ↦ rw e (λ h. cc, λ h. absurd (true-false (sym (same_iff.1 h) ∙ e)))
  ]
