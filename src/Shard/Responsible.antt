-- ===== src/Shard/Responsible.antt =====
-- Which objects a shard acts on.
use kubernetes_controller_sh.Base.{
  String, ◌==◌, eq_iff, eq_refl, ◌≡◌, ◌≢◌, refl, sym, ap, ◌∙◌, ◌⊎◌, inl, inr, ◌↔◌, Bool, true,
  false, ◌||◌, Option, none, some, List, if◌then◌else◌, Bool-cases, arith,
}
use mathlib.Core.Path.{subst}
use kubernetes_controller_sh.Base.Result.{ok}
use kubernetes_controller_sh.Api.Core.{Object, label_shard, label_drain}
use kubernetes_controller_sh.Api.Labels.{
  find_label, get_label, delete_label, find_label-delete_label,
}
use kubernetes_controller_sh.Api.Client.{ApiError}
use kubernetes_controller_sh.Shard.Controller.{
  Env, Identity, Action, nothing, patched, delegated, drained, responsible, is_foreign, with_object,
  reconcile, without_labels, predicate, is_drained, is_assigned, all_predicates, is_some,
}

-- What a shard finds out about the object that it read.
module _ (r : Identity) where
  is_foreign-false : (o : Option String) → is_foreign r o ≡ false → o ≡ some r.shard_name
  unfolding is_foreign
  is_foreign-false none h = cc
  is_foreign-false (some s) h = ap some (ground (arith, eq_iff s r.shard_name))

  pub find_label-without_labels :
      (obj : Object) (j : String)
      → find_label (without_labels r obj).meta.labels j ≡ (
          if label_shard r.controller_ring_name == j || label_drain r.controller_ring_name == j
          then none
          else find_label obj.meta.labels j)
  unfolding without_labels
  find_label-without_labels obj j =
      find_label-delete_label (delete_label obj.meta.labels (label_shard r.controller_ring_name))
        (label_drain r.controller_ring_name) j
      ∙ rw (find_label-delete_label obj.meta.labels (label_shard r.controller_ring_name) j)
          (ground arith)

-- What a patch of a shard, and a call of its delegate, say of the object.
abbrev pub Acts : Env → Identity → Object → Action → Type 0
Acts env r obj nothing = Unit {0}
Acts env r obj delegated =
    (find_label obj.meta.labels (label_shard r.controller_ring_name) ≡ some r.shard_name)
    × (find_label obj.meta.labels (label_drain r.controller_ring_name) ≡ none)
Acts env r obj (patched before after) =
    (before ≡ obj)
    × (after ≡ without_labels r obj)
    × (find_label obj.meta.labels (label_shard r.controller_ring_name) ≡ some r.shard_name)
    × (find_label obj.meta.labels (label_drain r.controller_ring_name) ≢ none)

drained-action :
    (before after : Object) (o : Option ApiError)
    → (drained before after o).1 ≡ patched before after
unfolding drained
drained-action before after none = refl
drained-action before after (some e) = refl

responsible-Acts :
    (env : Env) (r : Identity) (obj : Object) (o : Option String)
    → find_label obj.meta.labels (label_shard r.controller_ring_name) ≡ some r.shard_name
    → find_label obj.meta.labels (label_drain r.controller_ring_name) ≡ o
    → Acts env r obj (responsible env r obj o).1
unfolding responsible
responsible-Acts env r obj none mine e = (mine, e)
responsible-Acts env r obj (some d) mine e =
    subst (Acts env r obj)
      (sym (drained-action obj (without_labels r obj) (env.patch obj (without_labels r obj))))
      (refl, refl, mine, λ h. cc (h, e))

with_object-Acts :
    (env : Env) (r : Identity) (obj : Object) → Acts env r obj (with_object env r (ok obj)).1
unfolding with_object
with_object-Acts env r obj =
    elim (Bool-cases
      (is_foreign r (find_label obj.meta.labels (label_shard r.controller_ring_name)))) [
        | inl foreign ↦ rw foreign tt
        | inr mine ↦ rw mine (responsible-Acts env r obj _ (is_foreign-false r _ mine) refl)
      ]

-- A shard acts on the object that it reads only if that carries its label: without a drain label it
-- calls its delegate, with one it patches both labels away and leaves all others.
pub reconcile-Acts :
    (env : Env) (r : Identity) (obj : Object)
    → env.get ≡ ok obj
    → Acts env r obj (reconcile env r).1
unfolding reconcile
reconcile-Acts env r obj e =
    subst (λ g. Acts env r obj (with_object env r g).1) (sym e) (with_object-Acts env r obj)

some-ne-none : (v : String) (o : Option String) → o ≡ some v → o ≢ none
some-ne-none v o h k = cc

mine-not_foreign : (r : Identity) → is_foreign r (some r.shard_name) ≡ false
unfolding is_foreign
mine-not_foreign r = ground (arith, eq_refl r.shard_name)

-- A shard calls its delegate for the object that it reads exactly if the object carries its label and
-- no drain label.
pub reconcile-delegated :
    (env : Env) (r : Identity) (obj : Object)
    → env.get ≡ ok obj
    → ((reconcile env r).1 ≡ delegated) ↔ (
        (find_label obj.meta.labels (label_shard r.controller_ring_name) ≡ some r.shard_name)
        × (find_label obj.meta.labels (label_drain r.controller_ring_name) ≡ none))
unfolding reconcile with_object responsible
reconcile-delegated env r obj e = (
  λ h. subst (Acts env r obj) h (reconcile-Acts env r obj e),
  λ (mine, undrained). rw (e, mine, mine-not_foreign r, undrained) refl,
)

-- A shard that reads an object with its label and a drain label patches both away.
pub reconcile-patched :
    (env : Env) (r : Identity) (obj : Object) (d : String)
    → env.get ≡ ok obj
    → find_label obj.meta.labels (label_shard r.controller_ring_name) ≡ some r.shard_name
    → find_label obj.meta.labels (label_drain r.controller_ring_name) ≡ some d
    → (reconcile env r).1 ≡ patched obj (without_labels r obj)
unfolding reconcile with_object responsible
reconcile-patched env r obj d e mine draining =
    rw (e, mine, mine-not_foreign r, draining)
      (drained-action obj (without_labels r obj) (env.patch obj (without_labels r obj)))

Option-cases : (o : Option String) → ((v : String) × (o ≡ some v)) ⊎ (o ≡ none)
Option-cases none = inr refl
Option-cases (some v) = inl (v, refl)

unwatched :
    (r : Identity) (obj : Object) (predicates : List (Object → Bool))
    → find_label obj.meta.labels (label_shard r.controller_ring_name) ≡ some r.shard_name
    → find_label obj.meta.labels (label_drain r.controller_ring_name) ≡ none
    → predicate r predicates obj ≡ all_predicates predicates obj
unfolding predicate is_drained is_assigned is_some get_label
unwatched r obj predicates mine undrained = rw (mine, undrained, eq_refl r.shard_name) refl

watched :
    (r : Identity) (obj : Object) (predicates : List (Object → Bool)) (d : String)
    → find_label obj.meta.labels (label_drain r.controller_ring_name) ≡ some d
    → predicate r predicates obj ≡ true
unfolding predicate is_drained is_some
watched r obj predicates d draining = rw draining refl

-- For an object that the predicate of the watch refuses, the reconciler does nothing, or it calls
-- the delegate and the other predicates refuse the object: no drain goes unseen, nor an object of
-- the shard that its own predicates accept.
pub predicate-Acts :
    (env : Env) (r : Identity) (obj : Object) (predicates : List (Object → Bool))
    → env.get ≡ ok obj
    → predicate r predicates obj ≡ false
    → ((reconcile env r).1 ≡ nothing)
      ⊎ (((reconcile env r).1 ≡ delegated) × (all_predicates predicates obj ≡ false))
unfolding reconcile with_object
predicate-Acts env r obj predicates e h =
    elim (Bool-cases
      (is_foreign r (find_label obj.meta.labels (label_shard r.controller_ring_name)))) [
        | inl foreign ↦ inl (rw (e, foreign) refl)
        | inr foreign ↦
            let mine = is_foreign-false r _ foreign in
            elim (Option-cases (find_label obj.meta.labels (label_drain r.controller_ring_name))) [
              | inl (d, draining) ↦ absurd (cc (h, watched r obj predicates d draining))
              | inr undrained ↦ inr (
                (reconcile-delegated env r obj e).1 (mine, undrained),
                sym (unwatched r obj predicates mine undrained) ∙ h,
              )
            ]
      ]
