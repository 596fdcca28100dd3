-- ===== src/Controllerring/Config/Rules.antt =====
-- The rules of the webhook, against the resources that the handler knows.
use kubernetes_controller_sh.Base.{
  String, eq_iff, ◌≡◌, refl, ap, ◌⊎◌, inl, inr, ◌↔◌, true, List, [], ◌∷◌, map, In, In-append,
  In-append_left, In-append_right, Bool-cases, arith,
}
use kubernetes_controller_sh.Base.Result.{ok}
use kubernetes_controller_sh.Api.Core.{GroupResource}
use kubernetes_controller_sh.Api.ControllerRing.{ControllerRing, RingResource}
use kubernetes_controller_sh.Sharding.Key.{
  Func, object_func, controller_func, same_resource, has_resource, ring_resources,
  controlled_resources, func_for_resource,
}
use kubernetes_controller_sh.Controllerring.Config.{
  WebhookConfig, rule_for_resource, rules_for, webhook_for_controller_ring,
}

same_resource_iff : (a b : GroupResource) → (same_resource a b ≡ true) ↔ (a ≡ b)
unfolding same_resource
same_resource_iff a b = ground (arith, eq_iff a.group b.group, eq_iff a.resource b.resource)

has_resource_iff :
    (xs : List GroupResource) (gr : GroupResource) → (has_resource xs gr ≡ true) ↔ In gr xs
unfolding has_resource
has_resource_iff [] gr = ground arith
has_resource_iff (x ∷ xs) gr = ground (arith, same_resource_iff x gr, has_resource_iff xs gr)

head_or : List String → String
head_or [] = ""
head_or (x ∷ xs) = x

resource_eq : (a b : GroupResource) → a.group ≡ b.group → a.resource ≡ b.resource → a ≡ b
resource_eq a b g r = ground (arith)

rule_inj : (a b : GroupResource) → rule_for_resource a ≡ rule_for_resource b → a ≡ b
unfolding rule_for_resource head_or
rule_inj a b h =
    resource_eq a b (ap (λ r. head_or r.api_groups) h) (ap (λ r. head_or r.resources) h)

In-map_rule :
    (xs : List GroupResource) (gr : GroupResource)
    → In (rule_for_resource gr) (map rule_for_resource xs) ↔ In gr xs
In-map_rule [] gr = (λ m. m, λ m. m)
In-map_rule (x ∷ xs) gr = (
  λ m. elim m [ inl e ↦ inl (rule_inj gr x e) | inr r ↦ inr ((In-map_rule xs gr).0 r) ],
  λ m. elim m [ inl e ↦ inl (ap rule_for_resource e) | inr r ↦ inr ((In-map_rule xs gr).1 r) ],
)

rules_for-In :
    (rs : List RingResource) (gr : GroupResource)
    → In (rule_for_resource gr) (rules_for rs)
    → In gr (ring_resources rs) ⊎ In gr (controlled_resources rs)
unfolding rules_for ring_resources controlled_resources
rules_for-In [] gr m = elim m [ ]
rules_for-In (r ∷ rs) gr (inl e) = inl (inl (rule_inj gr r.group_resource e))
rules_for-In (r ∷ rs) gr (inr m) =
    elim (In-append (rule_for_resource gr) (map rule_for_resource r.controlled_resources)
      (rules_for rs) m) [
        | inl here ↦ inr (
            In-append_left gr r.controlled_resources (controlled_resources rs)
              ((In-map_rule r.controlled_resources gr).0 here))
        | inr later ↦ elim (rules_for-In rs gr later) [
          | inl main ↦ inl (inr main)
          | inr controlled ↦
              inr (In-append_right gr r.controlled_resources (controlled_resources rs) controlled)
        ]
      ]

In-rules_main :
    (rs : List RingResource) (gr : GroupResource)
    → In gr (ring_resources rs)
    → In (rule_for_resource gr) (rules_for rs)
unfolding rules_for ring_resources
In-rules_main [] gr m = elim m [ ]
In-rules_main (r ∷ rs) gr (inl e) = inl (ap rule_for_resource e)
In-rules_main (r ∷ rs) gr (inr m) = inr (
    In-append_right (rule_for_resource gr) (map rule_for_resource r.controlled_resources)
      (rules_for rs) (In-rules_main rs gr m))

In-rules_controlled :
    (rs : List RingResource) (gr : GroupResource)
    → In gr (controlled_resources rs)
    → In (rule_for_resource gr) (rules_for rs)
unfolding rules_for controlled_resources
In-rules_controlled [] gr m = elim m [ ]
In-rules_controlled (r ∷ rs) gr m =
    inr (elim (In-append gr r.controlled_resources (controlled_resources rs) m) [
      | inl here ↦
          In-append_left (rule_for_resource gr) (map rule_for_resource r.controlled_resources)
            (rules_for rs) ((In-map_rule r.controlled_resources gr).1 here)
      | inr later ↦
          In-append_right (rule_for_resource gr) (map rule_for_resource r.controlled_resources)
            (rules_for rs) (In-rules_controlled rs gr later)
    ])

-- The webhook of a ring has a rule for a resource exactly if the handler knows which key function to
-- use for it.
pub webhook-rules :
    (ring : ControllerRing) (config : WebhookConfig) (gr : GroupResource)
    → In (rule_for_resource gr) (webhook_for_controller_ring ring config).rules
      ↔ ((f : Func) × (func_for_resource gr ring ≡ ok f))
unfolding webhook_for_controller_ring func_for_resource
webhook-rules ring config gr = (
  λ m. elim (Bool-cases (has_resource (ring_resources ring.spec.resources) gr)) [
    | inl main ↦ (object_func, rw main refl)
    | inr not_main ↦ elim (rules_for-In ring.spec.resources gr m) [
      | inl main ↦
          absurd (cc (not_main, (has_resource_iff (ring_resources ring.spec.resources) gr).1 main))
      | inr controlled ↦ (
        controller_func,
        rw (not_main, (has_resource_iff (controlled_resources ring.spec.resources) gr).1 controlled)
            refl,
      )
    ]
  ],
  λ (f, known). elim (Bool-cases (has_resource (ring_resources ring.spec.resources) gr)) [
    | inl main ↦
        In-rules_main ring.spec.resources gr
          ((has_resource_iff (ring_resources ring.spec.resources) gr).0 main)
    | inr not_main ↦
        elim (Bool-cases (has_resource (controlled_resources ring.spec.resources) gr)) [
          | inl controlled ↦
              In-rules_controlled ring.spec.resources gr
                ((has_resource_iff (controlled_resources ring.spec.resources) gr).0 controlled)
          | inr neither ↦ cc (rw (not_main, neither) at known)
        ]
  ],
)
