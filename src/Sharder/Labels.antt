-- ===== src/Sharder/Labels.antt =====
-- What the patches of the sharder make of an object's labels.
use text.Mathlib.TextLemmas.{cons-eq-cons, cons-append}
use kubernetes_controller_sh.Base.{
  String, ◌==◌, ◌≡◌, ◌≢◌, sym, ap, ◌∙◌, Option, none, some, List, [], ◌∷◌, if◌then◌else◌, arith,
  ◌||◌,
}
use kubernetes_controller_sh.Base.Slash.{is_char}
use kubernetes_controller_sh.Api.Core.{Labels, label_shard, label_drain}
use kubernetes_controller_sh.Api.Labels.{
  find_label, set_label, delete_label, find_label-set_label, find_label-delete_label,
}
use kubernetes_controller_sh.Api.ControllerRing.{ring_label_shard, ring_label_drain}
use kubernetes_controller_sh.Sharder.Operation.{Operation, WorkItem, drain_patch, move_patch}

-- A JSON merge patch of the labels (RFC 7386), as the API server applies it: null removes a label.
unfoldable pub merge : Labels → List (String × Option String) → Labels
merge labels [] = labels
merge labels ((k, none) ∷ rest) = merge (delete_label labels k) rest
merge labels ((k, some v) ∷ rest) = merge (set_label labels k v) rest

-- The two labels of a ring are different labels.
pub label_shard-ne-label_drain : (r s : String) → label_shard r ≢ label_drain s
unfolding label_shard label_drain
label_shard-ne-label_drain r s e =
    let h =
      (cons-eq-cons.0 (
        sym (cons-append "s" "hard.alpha.sharding.timebertt.dev/" r)
        ∙ e
        ∙ cons-append "d" "rain.alpha.sharding.timebertt.dev/" s)).0 in
    cc (ap (λ c. is_char c "s") h)

module _ (o : Operation) (w : WorkItem) (labels : Labels) where
  -- A drain sets the drain label and keeps all other labels, the shard label too.
  pub merge-drain_patch :
      (j : String)
      → find_label (merge labels (drain_patch o w).labels) j
        ≡ (if ring_label_drain o.controller_ring == j then some "true" else find_label labels j)
  unfolding merge drain_patch
  merge-drain_patch j = find_label-set_label labels (ring_label_drain o.controller_ring) j "true"

  -- A move removes the shard label and the drain label, and keeps all others.
  pub merge-move_patch :
      (j : String)
      → find_label (merge labels (move_patch o w).labels) j ≡ (
          if ring_label_shard o.controller_ring == j || ring_label_drain o.controller_ring == j
          then none
          else find_label labels j)
  unfolding merge move_patch
  merge-move_patch j =
      find_label-delete_label (delete_label labels (ring_label_shard o.controller_ring))
        (ring_label_drain o.controller_ring) j
      ∙ rw (find_label-delete_label labels (ring_label_shard o.controller_ring) j) (ground arith)
