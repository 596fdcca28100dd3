-- ===== src/Api/Labels.antt =====
-- Reading and writing the labels of an object, where a nil map reads as an empty one.
use kubernetes_controller_sh.Base.{String, ◌≡◌, Option, none, some, [], if◌then◌else◌, ◌==◌, arith}
use kubernetes_controller_sh.Base.Map.{
  Map, string_key, lookup, insert, delete, or_empty, lookup-insert, lookup-delete,
}

module _ where
  -- `v, ok := labels[key]`
  unfoldable pub find_label : Option (Map String String) → String → Option String
  find_label none key = none
  find_label (some m) key = lookup key m

  -- `labels[key]`
  unfoldable pub get_label : Option (Map String String) → String → String
  unfolding find_label
  get_label labels key = or_empty (find_label labels key)

  -- `metav1.SetMetaDataLabel` makes the map first if it is nil.
  unfoldable pub set_label :
      Option (Map String String) → String → String → Option (Map String String)
  set_label none key v = some (insert key v [])
  set_label (some m) key v = some (insert key v m)

  -- `delete(labels, key)`, which does nothing to a nil map.
  unfoldable pub delete_label : Option (Map String String) → String → Option (Map String String)
  delete_label none key = none
  delete_label (some m) key = some (delete key m)

  pub find_label-set_label :
      (l : Option (Map String String)) (k j v : String)
      → find_label (set_label l k v) j ≡ (if k == j then some v else find_label l j)
  unfolding find_label set_label lookup
  find_label-set_label none k j v = lookup-insert k j v []
  find_label-set_label (some m) k j v = lookup-insert k j v m

  pub find_label-delete_label :
      (l : Option (Map String String)) (k j : String)
      → find_label (delete_label l k) j ≡ (if k == j then none else find_label l j)
  unfolding find_label delete_label
  find_label-delete_label none k j = ground arith
  find_label-delete_label (some m) k j = lookup-delete k j m
