-- ===== src/Examples/Data.antt =====
-- Objects that the examples share.
use Prim.Native.String.{len}
use kubernetes_controller_sh.Base.{
  eq_iff, ◌==◌, ◌≢◌, ℕ, ◌*◌, String, ◌≡◌, true, false, Option, none, some, [], ◌∷◌,
}
use kubernetes_controller_sh.Base.Int.{ℤ, pos}
use kubernetes_controller_sh.Api.Core.{
  ObjectMeta, Lease, Object, GroupResource, OwnerReference, Labels, label_controller_ring,
  label_shard,
}
use kubernetes_controller_sh.Api.ControllerRing.{ControllerRing}
use kubernetes_controller_sh.Consistenthash.{Hash}
use kubernetes_controller_sh.Sharding.Key.{Apimachinery}

pub different : (s t : String) → (s == t) ≡ false → s ≢ t
different s t h e = cc (h, (eq_iff s t).1 e)

abbrev pub by_length : Hash
by_length s = len s

abbrev pub meta : String → String → Labels → ObjectMeta
meta namespace name labels = record {
  name = name;
  namespace = namespace;
  generate_name = "";
  resource_version = "1";
  labels = labels;
  owner_references = [];
}

-- The lease of a shard of the ring `ring`, renewed at 100 s for 15 s.
abbrev pub lease_of : String → Option String → Lease
lease_of name holder = record {
  meta = meta "default" name (some ((label_controller_ring, "ring") ∷ []));
  spec = record {
    holder_identity = holder;
    lease_duration_seconds = some (pos 15);
    acquire_time = some (pos 100_000_000_000);
    renew_time = some (pos 100_000_000_000);
    lease_transitions = none;
  };
}

-- So many seconds.
abbrev pub at : ℕ → ℤ
at s = pos (s * 1_000_000_000)

abbrev pub configs : GroupResource
configs = record { group = ""; resource = "configmaps" }

abbrev pub secrets : GroupResource
secrets = record { group = ""; resource = "secrets" }

abbrev pub ring : ControllerRing
ring = record {
  name = "ring";
  generation = pos 3;
  spec = record {
    resources = record { group_resource = configs; controlled_resources = secrets ∷ [] } ∷ [];
    namespace_selector = none;
  };
  status = record {
    observed_generation = pos 0;
    shards = pos 0;
    available_shards = pos 0;
    conditions = [];
  };
}

abbrev pub config_map : Labels → Object
config_map labels = record {
  gvk = record { group = ""; version = "v1"; kind = "ConfigMap" };
  meta = meta "default" "settings" labels;
}

abbrev pub on_shard : String → Labels
on_shard shard = some ((label_shard "ring", shard) ∷ [])

abbrev pub owner_reference : OwnerReference
owner_reference = record {
  api_version = "v1";
  kind = "ConfigMap";
  name = "settings";
  controller = some true;
}

-- Every object is controlled by the config map.
abbrev pub apimachinery : Apimachinery
apimachinery = record {
  get_controller_of = λ obj. some owner_reference;
  parse_group_version = λ text. some ("", text);
}
