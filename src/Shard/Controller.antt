-- ===== src/Shard/Controller.antt =====
-- pkg/shard/controller: the reconciler that a shard wraps around its own (reconciler.go), and
-- the predicate of its watch (predicate.go).
use kubernetes_controller_sh.Base.{
  String, ◌==◌, Bool, true, false, not, ◌&&◌, ◌||◌, Option, none, some, List, [], ◌∷◌,
  if◌then◌else◌,
}
use kubernetes_controller_sh.Base.Result.{Result, ok, err}
use kubernetes_controller_sh.Api.Core.{Object, label_shard, label_drain}
use kubernetes_controller_sh.Api.Labels.{find_label, get_label, delete_label}
use kubernetes_controller_sh.Api.Client.{ApiError, is_not_found}

-- The fields `ControllerRingName` and `ShardName`.
pub record Identity : Type 0 where
  pub controller_ring_name : String
  pub shard_name : String

-- What the reconciler did: the patch from one object to another, or the call of the delegate.
pub data Action : Type 0 where
  nothing : Action
  patched : Object → Object → Action
  delegated : Action

pub data ReconcileError : Type 0 where
  retrieving_object draining_object : ApiError → ReconcileError

-- What is returned; the delegate's own result is `of_delegate`.
pub data Outcome : Type 0 where
  done of_delegate : Outcome
  failed : ReconcileError → Outcome

-- The client: reading the object of the request, and patching it.
pub record Env : Type 0 where
  pub get : Result ApiError Object
  pub patch : Object → Object → Option ApiError

abbrev pub Reply : Type 0
Reply = Outcome × Action

unfoldable pub without_labels : Identity → Object → Object
without_labels r obj =
    let labels = delete_label obj.meta.labels (label_shard r.controller_ring_name) in
    record obj {
      meta = record obj.meta { labels = delete_label labels (label_drain r.controller_ring_name) };
    }

unfoldable pub drained : Object → Object → Option ApiError → Reply
drained before after none = (done, patched before after)
drained before after (some e) = (failed (draining_object e), patched before after)

-- Behind the check that the shard label is this shard's: the `if` on the drain label.
unfoldable pub responsible : Env → Identity → Object → Option String → Reply
unfolding drained
responsible env r obj none = (of_delegate, delegated)
responsible env r obj (some drain) =
    let after = without_labels r obj in drained obj after (env.patch obj after)

-- `!ok || shard != r.ShardName`
unfoldable pub is_foreign : Identity → Option String → Bool
is_foreign r none = true
is_foreign r (some shard) = not (shard == r.shard_name)

unfoldable pub with_object : Env → Identity → Result ApiError Object → Reply
with_object env r (err e) = (if is_not_found e then done else failed (retrieving_object e), nothing)
with_object env r (ok obj) =
    if is_foreign r (find_label obj.meta.labels (label_shard r.controller_ring_name))
    then (done, nothing)
    else responsible env r obj (find_label obj.meta.labels (label_drain r.controller_ring_name))

unfoldable pub reconcile : Env → Identity → Reply
reconcile env r = with_object env r env.get

-- The predicates of predicate.go, on the labels of an object.
unfoldable pub is_assigned : Identity → Object → Bool
is_assigned r obj = get_label obj.meta.labels (label_shard r.controller_ring_name) == r.shard_name

unfoldable pub is_some : Option String → Bool
is_some none = false
is_some (some s) = true

unfoldable pub is_drained : Identity → Object → Bool
unfolding is_some
is_drained r obj = is_some (find_label obj.meta.labels (label_drain r.controller_ring_name))

unfoldable pub all_predicates : List (Object → Bool) → Object → Bool
all_predicates [] obj = true
all_predicates (p ∷ ps) obj = p obj && all_predicates ps obj

unfoldable pub predicate : Identity → List (Object → Bool) → Object → Bool
predicate r predicates obj = is_drained r obj || is_assigned r obj && all_predicates predicates obj
