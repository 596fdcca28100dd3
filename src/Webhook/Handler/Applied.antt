-- ===== src/Webhook/Handler/Applied.antt =====
-- What the operations of the handler make of the labels of an object, read as RFC 6902 says.
use text.Mathlib.Text.{starts_with}
use text.Mathlib.TextPositions.{starts_with-append}
use kubernetes_controller_sh.Base.{
  String, ◌==◌, ◌≡◌, refl, Option, none, some, List, [], ◌∷◌, if◌then◌else◌,
}
use kubernetes_controller_sh.Api.Core.{Labels}
use kubernetes_controller_sh.Api.Labels.{set_label}
use kubernetes_controller_sh.Webhook.Path.{trim_prefix, trim_prefix-append}
use kubernetes_controller_sh.Webhook.Escape.{escape, unescape, unescape-escape}
use kubernetes_controller_sh.Webhook.Handler.{
  PatchOperation, add_empty_map, add_value, assignment_patch,
}

-- Applying "add" operations: the first replaces the map of labels with an empty one; the second sets the
-- member that the rest of the path names, and fails where there is no map.
unfoldable pub apply_patch : List PatchOperation → Labels → Option Labels
apply_patch [] labels = some labels
apply_patch (add_empty_map path ∷ ops) labels =
    let rest = apply_patch ops (some []) in if path == "/metadata/labels" then rest else none
apply_patch (add_value path v ∷ ops) none = none
apply_patch (add_value path v ∷ ops) (some m) =
    let key = unescape (trim_prefix path "/metadata/labels/") in
    let rest = apply_patch ops (set_label (some m) key v) in
    if starts_with path "/metadata/labels/" then rest else none

-- The operations set the shard label, and keep all other labels, whether or not there is a map.
pub apply_patch-assignment_patch :
    (labels : Labels) (key v : String)
    → apply_patch (assignment_patch labels key v) labels ≡ some (set_label labels key v)
unfolding apply_patch assignment_patch set_label
apply_patch-assignment_patch none key v =
    rw
      (
        starts_with-append "/metadata/labels/" (escape key),
        trim_prefix-append "/metadata/labels/" (escape key),
        unescape-escape key,
      )
      refl
apply_patch-assignment_patch (some m) key v =
    rw
      (
        starts_with-append "/metadata/labels/" (escape key),
        trim_prefix-append "/metadata/labels/" (escape key),
        unescape-escape key,
      )
      refl
