-- ===== src/Examples/Requests.antt =====
-- An event of a ring with one lease.
use kubernetes_controller_sh.Base.{
  ◌≡◌, refl, sym, ap, ◌↔◌, String, ◌==◌, eq_iff, ◌&&◌, Bool, true, false, Option, none, Bool-cases,
  arith, if◌then◌else◌, inl, inr, some, List, [], ◌∷◌, In,
}
use kubernetes_controller_sh.Base.Result.{ok}
use mathlib.Core.Path.{subst}
use kubernetes_controller_sh.Api.Core.{Lease, Labels}
use kubernetes_controller_sh.Api.Labels.{find_label}
use kubernetes_controller_sh.Sharding.Handler.{
  map_lease_to_controller_ring, lease_key, map_controller_ring_to_leases,
}
use kubernetes_controller_sh.Sharding.Handler.Mutual.{Matches, map_controller_ring_to_leases-In}
use kubernetes_controller_sh.Examples.Data.{lease_of, ring, different}

abbrev leases : List Lease
leases = lease_of "shard" (some "shard") ∷ []

-- The labels of the lease are those of the selector.
is_value : Option String → String → Bool
is_value none v = false
is_value (some s) v = s == v

is_value-eq_iff : (o : Option String) (v : String) → (is_value o v ≡ true) ↔ (o ≡ some v)
unfolding is_value
is_value-eq_iff none v = (λ h. absurd (cc h), λ h. absurd (cc h))
is_value-eq_iff (some s) v = (λ h. ap some ((eq_iff s v).0 h), λ h. (eq_iff s v).1 (cc h))

matches : Labels → List (String × String) → Bool
unfolding is_value
matches labels [] = true
matches labels ((k, v) ∷ rest) = is_value (find_label labels k) v && matches labels rest

both : (a b : Bool) → (a && b ≡ true) ↔ ((a ≡ true) × (b ≡ true))
both a b = ground arith

matches-Matches :
    (labels : Labels) (selector : List (String × String))
    → (matches labels selector ≡ true) ↔ Matches labels selector
unfolding matches
matches-Matches labels [] = (λ h. tt, λ h. refl)
matches-Matches labels ((k, v) ∷ rest) =
    let (split, join) = both (is_value (find_label labels k) v) (matches labels rest) in
    (
      λ h.
          let (first, later) = split h in
          (
            (is_value-eq_iff (find_label labels k) v).0 first,
            (matches-Matches labels rest).0 later,
          ),
      λ (first, later). join (
        (is_value-eq_iff (find_label labels k) v).1 first,
        (matches-Matches labels rest).1 later,
      ),
    )

-- What the API answers, where the lease is the only one.
listed : List (String × String) → List Lease
unfolding matches
listed selector =
    if matches (lease_of "shard" (some "shard")).meta.labels selector then leases else []

listed-Matches :
    (selector : List (String × String)) (l : Lease)
    → In l (listed selector) ↔ (In l leases × Matches l.meta.labels selector)
unfolding listed
listed-Matches selector l =
    elim (Bool-cases (matches (lease_of "shard" (some "shard")).meta.labels selector)) [
      | inl found ↦
          rw found (λ m. (m, of_lease m ((matches-Matches _ selector).0 found)), λ (m, h). m)
      | inr not_found ↦ rw not_found (
        λ m. elim m [ ],
        λ (m, h). absurd (cc (not_found, (matches-Matches _ selector).1 (to_lease m h))),
      )
    ]
  where
    of_lease :
        In l leases
        → Matches (lease_of "shard" (some "shard")).meta.labels selector
        → Matches l.meta.labels selector
    of_lease (inl e) h = subst (λ x. Matches x.meta.labels selector) (sym e) h
    of_lease (inr m) h = elim m [ ]

    to_lease :
        In l leases
        → Matches l.meta.labels selector
        → Matches (lease_of "shard" (some "shard")).meta.labels selector
    to_lease (inl e) h = subst (λ x. Matches x.meta.labels selector) e h
    to_lease (inr m) h = elim m [ ]

map_controller_ring_to_leases-In_example :
    In
      ("default", "shard")
      (map_controller_ring_to_leases (λ selector. ok (listed selector)) (some ring))
    ↔ ((l : Lease) × In l leases
        × (map_lease_to_controller_ring l.meta ≡ ("", "ring") ∷ [])
        × (("default", "shard") ≡ lease_key l))
map_controller_ring_to_leases-In_example =
    map_controller_ring_to_leases-In leases ring ("default", "shard")
      (λ selector. ok (listed selector)) (different "ring" "" refl)
      (λ selector. (listed selector, refl, listed-Matches selector))
