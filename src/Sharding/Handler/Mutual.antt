-- ===== src/Sharding/Handler/Mutual.antt =====
-- The two mappings agree on which leases belong to a ring.
use kubernetes_controller_sh.Base.{
  String, ◌==◌, eq_iff, ◌≡◌, ◌≢◌, refl, sym, ap, ◌∙◌, ◌↔◌, inl, inr, Bool-cases, Option, none, some,
  List, [], ◌∷◌, map, In,
}
use kubernetes_controller_sh.Base.Map.{or_empty}
use kubernetes_controller_sh.Base.Result.{Result, ok}
use kubernetes_controller_sh.Api.Core.{Lease, Labels, ObjectMeta, label_controller_ring}
use kubernetes_controller_sh.Api.Labels.{find_label, get_label}
use kubernetes_controller_sh.Api.Client.{ApiError}
use kubernetes_controller_sh.Api.ControllerRing.{ControllerRing, lease_selector}
use kubernetes_controller_sh.Sharding.Handler.{
  RequestKey, map_lease_to_controller_ring, lease_key, requests_for, map_controller_ring_to_leases,
}

In-map_key :
    (key : RequestKey) (leases : List Lease)
    → In key (map lease_key leases) ↔ ((l : Lease) × In l leases × (key ≡ lease_key l))
In-map_key key [] = (λ m. elim m [ ], λ (l, m, e). elim m [ ])
In-map_key key (x ∷ xs) = (
  λ m. elim m [
    | inl e ↦ (x, inl refl, e)
    | inr r ↦ let (l, a, e) = (In-map_key key xs).0 r in (l, inr a, e)
  ],
  λ (l, m, e). elim m [
    | inl same ↦ inl (e ∙ ap lease_key same)
    | inr r ↦ inr ((In-map_key key xs).1 (l, r, e))
  ],
)

find_of_or_empty : (o : Option String) (v : String) → v ≢ "" → or_empty o ≡ v → o ≡ some v
find_of_or_empty none v ne h = absurd (ne (sym h))
find_of_or_empty (some s) v ne h = ap some h

snd_key : (a b : String) → Path (List RequestKey) (("", a) ∷ []) (("", b) ∷ []) → a ≡ b
snd_key a b h = cc

empty_key : (b : String) → Path (List RequestKey) [] (("", b) ∷ []) → ⊥
empty_key b h = cc

-- A lease is mapped to a ring exactly if it has the ring's name as its label.
map_lease-label :
    (obj : ObjectMeta) (name : String)
    → name ≢ ""
    → (map_lease_to_controller_ring obj ≡ ("", name) ∷ [])
      ↔ (find_label obj.labels label_controller_ring ≡ some name)
unfolding map_lease_to_controller_ring get_label
map_lease-label obj name named = (
  λ h. elim (Bool-cases (or_empty (find_label obj.labels label_controller_ring) == "")) [
    | inl e ↦ absurd (empty_key name (rw e at h))
    | inr ne ↦ find_of_or_empty _ name named (snd_key _ _ (rw ne at h))
  ],
  λ h. rw h (elim (Bool-cases (name == "")) [
    | inl e ↦ absurd (named ((eq_iff name "").0 e))
    | inr ne ↦ rw ne refl
  ]),
)

-- The labels are those of the selector.
abbrev pub Matches : Labels → List (String × String) → Type 0
Matches labels [] = Unit
Matches labels ((k, v) ∷ rest) = (find_label labels k ≡ some v) × Matches labels rest

-- An event of a ring makes a request for exactly those leases whose events make a request for the ring,
-- if the listing answers every selector with the leases that have the labels of the selector, as the API
-- does.
pub map_controller_ring_to_leases-In :
    (all : List Lease) (ring : ControllerRing) (key : RequestKey)
    (list : List (String × String) → Result ApiError (List Lease))
    → ring.name ≢ ""
    → ((selector : List (String × String))
        → (found : List Lease) × (list selector ≡ ok found)
          × ((l : Lease) → In l found ↔ (In l all × Matches l.meta.labels selector)))
    → In key (map_controller_ring_to_leases list (some ring)) ↔ (
        (l : Lease) × In l all
        × (map_lease_to_controller_ring l.meta ≡ ("", ring.name) ∷ [])
        × (key ≡ lease_key l))
unfolding map_controller_ring_to_leases requests_for lease_selector
map_controller_ring_to_leases-In all ring key list named api =
    let (leases, listed, selects) = api (lease_selector ring) in
    rw listed (
      λ m.
          let (l, a, e) = (In-map_key key leases).0 m in
          let (inside, (label, _)) = (selects l).0 a in
          (l, inside, (map_lease-label l.meta ring.name named).1 label, e),
      λ (l, inside, mapped, e).
          (In-map_key key leases).1
            (l, (selects l).1 (inside, ((map_lease-label l.meta ring.name named).0 mapped, tt)), e),
    )
