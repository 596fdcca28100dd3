-- ===== src/Shard/Convergence.antt =====
-- What becomes of a misplaced object when the sharder, its shard and the webhook have taken their turns.
use kubernetes_controller_sh.Base.{String, Bool, true, false}
use kubernetes_controller_sh.Api.Core.{Object, Labels}
use kubernetes_controller_sh.Api.ControllerRing.{ControllerRing, ring_label_shard}
use kubernetes_controller_sh.Api.Labels.{set_label}
use kubernetes_controller_sh.Shard.Controller.{Identity, without_labels}
use kubernetes_controller_sh.Sharder.Operation.{
  Operation, WorkItem, item_patch, drain_patch, move_patch,
}
use kubernetes_controller_sh.Webhook.Handler
use kubernetes_controller_sh.Sharder.Labels.{merge}

abbrev pub relabelled : Object → Labels → Object
relabelled obj labels = record obj { meta = record obj.meta { labels = labels } }

-- The labels after the sharder's patch.
abbrev pub labels_patched : Operation → Object → WorkItem → Labels
labels_patched o obj w = merge obj.meta.labels (item_patch o w).labels

-- The labels with which the webhook sees the object: after the acknowledgement of the drain by the
-- shard, or after the move.
abbrev pub released_by : Operation → Object → WorkItem → Identity → Bool → Labels
released_by o obj w r true =
    (without_labels r (relabelled obj (merge obj.meta.labels (drain_patch o w).labels))).meta.labels
released_by o obj w r false = merge obj.meta.labels (move_patch o w).labels

abbrev pub labels_released : Operation → Object → WorkItem → Identity → Labels
labels_released o obj w r = released_by o obj w r w.drain

-- The webhook adds the label of the desired shard.
abbrev pub labels_assigned : Operation → Object → WorkItem → Identity → String → Labels
labels_assigned o obj w r shard =
    set_label (labels_released o obj w r) (ring_label_shard o.controller_ring) shard
