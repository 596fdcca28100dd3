-- ===== src/Sharding/Handler.antt =====
-- pkg/sharding/handler: the requests that an event of a lease or of a ring makes.
pub mod Mutual
use kubernetes_controller_sh.Base.{
  String, ◌==◌, Option, none, some, List, [], ◌∷◌, map, if◌then◌else◌,
}
use kubernetes_controller_sh.Base.Result.{Result, ok, err}
use kubernetes_controller_sh.Api.Core.{ObjectMeta, Lease, label_controller_ring}
use kubernetes_controller_sh.Api.Labels.{get_label}
use kubernetes_controller_sh.Api.Client.{ApiError}
use kubernetes_controller_sh.Api.ControllerRing.{ControllerRing, lease_selector}

-- reconcile.Request: a namespace, empty for a ring, and a name.
abbrev pub RequestKey : Type 0
RequestKey = String × String

unfoldable pub map_lease_to_controller_ring : ObjectMeta → List RequestKey
map_lease_to_controller_ring obj =
    let ring = get_label obj.labels label_controller_ring in
    if ring == "" then [] else ("", ring) ∷ []

unfoldable pub lease_key : Lease → RequestKey
lease_key lease = (lease.meta.namespace, lease.meta.name)

unfoldable pub requests_for : Result ApiError (List Lease) → List RequestKey
requests_for (err e) = []
requests_for (ok leases) = map lease_key leases

-- The object of the event is `none` if it is no ring.
unfoldable pub map_controller_ring_to_leases :
    (List (String × String) → Result ApiError (List Lease))
    → Option ControllerRing
    → List RequestKey
map_controller_ring_to_leases list none = []
map_controller_ring_to_leases list (some ring) = requests_for (list (lease_selector ring))
