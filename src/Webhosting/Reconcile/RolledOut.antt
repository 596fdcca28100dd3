-- ===== src/Webhosting/Reconcile/RolledOut.antt =====
-- webhosting-operator/pkg/utils/kubernetes.go: when a deployment is ready, by its conditions.
use kubernetes_controller_sh.Base.{
  String, ◌==◌, eq_iff, eq_false, is_neq, ◌≡◌, ◌≢◌, refl, sym, ap, ◌∙◌, inl, inr, Bool, true, false,
  Option, none, some, List, [], ◌∷◌, ◌++◌, In, Bool-cases, if◌then◌else◌, arith,
}
use kubernetes_controller_sh.Base.Int.{ltb_ℤ}
use kubernetes_controller_sh.Webhosting.{
  DeploymentCondition, get_deployment_condition, is_available, is_rolled_out, is_deployment_ready,
}
use kubernetes_controller_sh.Webhosting.Objects.{Deployment}

-- The first condition of a type.
pub record IsFirst (type_name : String) (c : DeploymentCondition) (cs : List DeploymentCondition)
    : Type 0 where
  pub before : List DeploymentCondition
  pub after : List DeploymentCondition
  pub split : cs ≡ before ++ c ∷ after
  pub typed : c.type_name ≡ type_name
  pub others : (b : DeploymentCondition) → In b before → b.type_name ≢ type_name

-- The latest generation is observed, and the conditions say that the deployment is available, and that the
-- new replicas are, too.
pub record IsRolledOut (d : Deployment) : Type 0 where
  pub current : ltb_ℤ d.observed_generation d.generation ≡ false
  pub availability : DeploymentCondition
  pub first_availability : IsFirst "Available" availability d.conditions
  pub available : availability.status ≡ "True"
  pub progress : DeploymentCondition
  pub first_progress : IsFirst "Progressing" progress d.conditions
  pub progressed : progress.status ≡ "True"
  pub completed : progress.reason ≡ "NewReplicaSetAvailable"

some_inj : (a b : DeploymentCondition) → some a ≡ some b → a ≡ b
some_inj a b h = cc

get_deployment_condition-IsFirst :
    (type_name : String) (cs : List DeploymentCondition) (c : DeploymentCondition)
    → get_deployment_condition cs type_name ≡ some c
    → IsFirst type_name c cs
unfolding get_deployment_condition
get_deployment_condition-IsFirst type_name [] c h = absurd (cc h)
get_deployment_condition-IsFirst type_name (x ∷ xs) c h =
    elim (Bool-cases (x.type_name == type_name)) [
      | inl e ↦
          let same = some_inj x c (rw e at h) in
          record {
            before = [];
            after = xs;
            split = ap (λ y. y ∷ xs) same;
            typed = ap (λ y. y.type_name) (sym same) ∙ (eq_iff x.type_name type_name).0 e;
            others = λ b i. absurd i;
          }
      | inr ne ↦
          let rest = get_deployment_condition-IsFirst type_name xs c (rw ne at h) in
          record {
            before = x ∷ rest.before;
            after = rest.after;
            split = ap (λ ys. x ∷ ys) rest.split;
            typed = rest.typed;
            others = λ b i. elim i [
              | inl same ↦ λ t. eq_false _ _ ne (ap (λ y. y.type_name) (sym same) ∙ t)
              | inr j ↦ rest.others b j
            ];
          }
    ]

first_found :
    (type_name : String) (before after : List DeploymentCondition) (c : DeploymentCondition)
    → c.type_name ≡ type_name
    → ((b : DeploymentCondition) → In b before → b.type_name ≢ type_name)
    → get_deployment_condition (before ++ c ∷ after) type_name ≡ some c
unfolding get_deployment_condition
first_found type_name [] after c typed others = simp ((eq_iff c.type_name type_name).1 typed)
first_found type_name (x ∷ xs) after c typed others = simp (
  is_neq x.type_name type_name (others x (inl refl)),
  first_found type_name xs after c typed (λ b i. others b (inr i)),
)

IsFirst-get_deployment_condition :
    (type_name : String) (cs : List DeploymentCondition) (c : DeploymentCondition)
    → IsFirst type_name c cs
    → get_deployment_condition cs type_name ≡ some c
IsFirst-get_deployment_condition type_name cs c f =
    ap (λ l. get_deployment_condition l type_name) f.split
    ∙ first_found type_name f.before f.after c f.typed f.others

is_available-some :
    (o : Option DeploymentCondition)
    → is_available o ≡ true
    → (c : DeploymentCondition) × (o ≡ some c) × (c.status ≡ "True")
unfolding is_available
is_available-some none h = absurd (cc h)
is_available-some (some c) h = (c, refl, (eq_iff c.status "True").0 h)

is_rolled_out-some :
    (o : Option DeploymentCondition)
    → is_rolled_out o ≡ true
    → (c : DeploymentCondition) × (o ≡ some c)
      × (c.status ≡ "True")
      × (c.reason ≡ "NewReplicaSetAvailable")
unfolding is_rolled_out
is_rolled_out-some none h = absurd (cc h)
is_rolled_out-some (some c) h = (
  c,
  refl,
  ground (arith, h, eq_iff c.status "True"),
  ground (arith, h, eq_iff c.reason "NewReplicaSetAvailable"),
)

ready-cases :
    (stale available rolled_out : Bool)
    → (if stale then false else (if available then rolled_out else false)) ≡ true
    → (stale ≡ false) × (available ≡ true) × (rolled_out ≡ true)
ready-cases true available rolled_out h = absurd (cc h)
ready-cases false true rolled_out h = (refl, refl, h)
ready-cases false false rolled_out h = absurd (cc h)

pub is_deployment_ready-IsRolledOut :
    (d : Deployment)
    → is_deployment_ready d.generation d.observed_generation d.conditions ≡ true
    → IsRolledOut d
unfolding is_deployment_ready
is_deployment_ready-IsRolledOut d h =
    let (current, available, rolled_out) = ready-cases _ _ _ h in
    let (a, found_a, status_a) = is_available-some _ available in
    let (p, found_p, status_p, reason_p) = is_rolled_out-some _ rolled_out in
    record {
      current = current;
      availability = a;
      first_availability = get_deployment_condition-IsFirst "Available" d.conditions a found_a;
      available = status_a;
      progress = p;
      first_progress = get_deployment_condition-IsFirst "Progressing" d.conditions p found_p;
      progressed = status_p;
      completed = reason_p;
    }

pub IsRolledOut-is_deployment_ready :
    (d : Deployment)
    → IsRolledOut d
    → is_deployment_ready d.generation d.observed_generation d.conditions ≡ true
unfolding is_deployment_ready is_available is_rolled_out
IsRolledOut-is_deployment_ready d r = simp (
  r.current,
  IsFirst-get_deployment_condition "Available" d.conditions r.availability r.first_availability,
  IsFirst-get_deployment_condition "Progressing" d.conditions r.progress r.first_progress,
  r.available,
  r.progressed,
  r.completed,
)
