-- ===== src/Examples/Admission.antt =====
-- The webhook assigns a config map to the only shard of its ring.
use kubernetes_controller_sh.Base.{
  String, ◌≡◌, ◌≢◌, refl, sym, ap, ◌∙◌, ◌⊎◌, inl, inr, true, none, some, List, [], ◌∷◌, In,
}
use kubernetes_controller_sh.Base.Int.{◌+ℤ◌, ◌-ℤ◌, ◌*ℤ◌}
use kubernetes_controller_sh.Base.Result.{ok, ◌>>=◌, ◌>>◌}
use kubernetes_controller_sh.Api.Core.{Lease, Object, Labels}
use kubernetes_controller_sh.Api.Labels.{get_label, find_label}
use kubernetes_controller_sh.Api.ControllerRing.{ring_label_shard}
use kubernetes_controller_sh.Leases.{
  Shard, is_available, available_shards, to_shard, to_shards, to_state_of, to_times, times_of,
  times_at, released,
}
use kubernetes_controller_sh.Leases.Duration.{seconds, time_add, time_sub, add}
use kubernetes_controller_sh.Consistenthash.{hash_key}
use kubernetes_controller_sh.Sharding.Ring.{from_leases, hash_key-from_leases}
use kubernetes_controller_sh.Sharding.Key.{
  object_func, func_for_resource, has_resource, same_resource, ring_resources, apply, for_object,
  for_metadata,
}
use kubernetes_controller_sh.Webhook.Path.{
  controller_ring_for_webhook_path, trim_prefix, webhook_path_for_controller_ring, join, clean,
}
use kubernetes_controller_sh.Base.Slash.{NoSlash, elements}
use kubernetes_controller_sh.Webhook.Handler.{
  Env, Request, patched, PatchOperation, controller_ring_for_request, assignment_patch, assign,
  allow_if, fail, handle,
}
use kubernetes_controller_sh.Webhook.Handler.Assigns.{Assigns, handle-Assigns}
use kubernetes_controller_sh.Examples.Data.{
  different, by_length, lease_of, at, ring, configs, config_map, apimachinery,
}

abbrev pub shard_b : Lease
shard_b = lease_of "b" (some "b")

abbrev pub env : Object → Env
env obj = record {
  get_ring = λ name. ok ring;
  list_leases = λ selector. ok (shard_b ∷ []);
  now = at 112;
  default_hash = by_length;
  apimachinery = apimachinery;
  unmarshal = λ raw. ok obj;
}

abbrev pub request : Request
request = record {
  path = some "/webhooks/sharder/controllerring/ring";
  raw = "{}";
  resource = configs;
  dry_run = none;
}

abbrev pub key : String
key = "/ConfigMap/default/settings"

pub is_ready : is_available (to_shard shard_b (at 112)).state ≡ true
unfolding is_available to_shard to_state_of to_times times_of times_at released time_add time_sub
    add seconds ◌+ℤ◌ ◌*ℤ◌ ◌-ℤ◌
is_ready = refl

hash_key-from_leases_example :
    ((s : Shard) × In s (from_leases by_length (shard_b ∷ []) (at 112)).1
      × (is_available s.state ≡ true)
      × (s.id ≡ hash_key (from_leases by_length (shard_b ∷ []) (at 112)).0 key))
    ⊎ ((available_shards (from_leases by_length (shard_b ∷ []) (at 112)).1 ≡ [])
        × (hash_key (from_leases by_length (shard_b ∷ []) (at 112)).0 key ≡ ""))
hash_key-from_leases_example = hash_key-from_leases by_length (shard_b ∷ []) (at 112) key

among_b : In (to_shard shard_b (at 112)) (from_leases by_length (shard_b ∷ []) (at 112)).1
unfolding from_leases to_shards
among_b = inl refl

only_b :
    (s : Shard)
    → In s (from_leases by_length (shard_b ∷ []) (at 112)).1
    → s ≡ to_shard shard_b (at 112)
unfolding from_leases to_shards
only_b s (inl e) = e
only_b s (inr m) = elim m [ ]

some_available : available_shards (from_leases by_length (shard_b ∷ []) (at 112)).1 ≢ []
unfolding from_leases to_shards available_shards
some_available e = cc (rw is_ready at e)

id_b : (to_shard shard_b (at 112)).id ≡ "b"
unfolding to_shard
id_b = refl

pub placed_b : hash_key (from_leases by_length (shard_b ∷ []) (at 112)).0 key ≡ "b"
placed_b = elim (hash_key-from_leases by_length (shard_b ∷ []) (at 112) key) [
  | inl (s, m, a, e) ↦ sym e ∙ ap (λ x. x.id) (only_b s m) ∙ id_b
  | inr (empty, e) ↦ absurd (some_available empty)
]

pub ring_found : (obj : Object) → controller_ring_for_request (env obj) request ≡ ok ring
unfolding controller_ring_for_request controller_ring_for_webhook_path trim_prefix ◌>>=◌
ring_found obj = refl

pub func_found : func_for_resource configs ring ≡ ok object_func
unfolding func_for_resource has_resource same_resource ring_resources
func_found = refl

pub key_found : (labels : Labels) → apply apimachinery object_func (config_map labels) ≡ ok key
unfolding apply for_object for_metadata
key_found labels = refl

-- What the webhook answers for any labels without the shard label.
pub answered :
    (labels : Labels)
    → get_label labels (ring_label_shard ring) ≡ ""
    → (handle (env (config_map labels)) request).0
      ≡ patched (assignment_patch labels (ring_label_shard ring) "b")
unfolding handle assign fail allow_if ◌>>=◌ ◌>>◌
answered labels unassigned =
    rw (ring_found (config_map labels), unassigned, func_found, key_found labels, placed_b) refl

no_labels : get_label none (ring_label_shard ring) ≡ ""
unfolding get_label find_label
no_labels = refl

named : (s : Shard) → In s (from_leases by_length (shard_b ∷ []) (at 112)).1 → s.id ≢ ""
named s m e = different "b" "" refl (sym (ap (λ x. x.id) (only_b s m) ∙ id_b) ∙ e)

flat : NoSlash "ring"
flat = (λ e. cc e, (λ e. cc e, (λ e. cc e, (λ e. cc e, tt))))

on_path : request.path ≡ some (webhook_path_for_controller_ring "ring")
unfolding webhook_path_for_controller_ring join clean elements
on_path = refl

handle-Assigns_example :
    (ops : List PatchOperation) × ((handle (env (config_map none)) request).0 ≡ patched ops)
    × Assigns (env (config_map none)) request ops
unfolding ring_label_shard
handle-Assigns_example =
    handle-Assigns (env (config_map none)) request ring (config_map none) object_func key
      (shard_b ∷ []) (to_shard shard_b (at 112)) flat (different "ring" "" refl)
      (different "ring" "." refl) (different "ring" ".." refl) on_path refl refl no_labels
      func_found (key_found none) (different key "" refl) refl among_b is_ready named
