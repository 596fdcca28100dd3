-- ===== src/Webhosting/Merged.antt =====
-- webhosting-operator/pkg/controllers/webhosting/website_controller.go: the labels of the objects.
use kubernetes_controller_sh.Base.{
  String, ◌==◌, ◌≡◌, refl, ap, ◌∙◌, Bool, true, false, Option, none, some, [], ◌∷◌, if◌then◌else◌,
}
use kubernetes_controller_sh.Base.Map.{Map, string_key, lookup, lookup-insert}
use kubernetes_controller_sh.Api.Core.{Labels}
use kubernetes_controller_sh.Api.Labels.{find_label}
use kubernetes_controller_sh.Webhosting.{copy, entries, merge_maps}

unfoldable pub or_else : Option String → Option String → Option String
or_else none other = other
or_else (some v) other = some v

lookup-copy :
    (out m : Map String String) (k : String)
    → lookup k (copy out m) ≡ or_else (lookup k m) (lookup k out)
unfolding lookup copy or_else
lookup-copy out [] k = refl
lookup-copy out ((j, v) ∷ m) k =
    lookup-insert j k v (copy out m) ∙ go (j == k) (lookup-copy out m k)
  where
    go :
        (b : Bool) {x : Option String}
        → x ≡ or_else (lookup k m) (lookup k out)
        → (if b then some v else x) ≡ or_else (if b then some v else lookup k m) (lookup k out)
    go true e = refl
    go false e = e

lookup-entries : (labels : Labels) (k : String) → lookup k (entries labels) ≡ find_label labels k
unfolding find_label lookup
lookup-entries none k = refl
lookup-entries (some m) k = refl

or_else-none : (o : Option String) → or_else o none ≡ o
unfolding or_else
or_else-none none = refl
or_else-none (some v) = refl

-- In merged labels the second map wins over the labels of the website.
pub lookup-merge_maps :
    (labels : Labels) (m : Map String String) (k : String)
    → lookup k (merge_maps labels m) ≡ or_else (lookup k m) (find_label labels k)
unfolding merge_maps lookup
lookup-merge_maps labels m k =
    lookup-copy (copy [] (entries labels)) m k
    ∙ ap (or_else (lookup k m)) (
        lookup-copy [] (entries labels) k
        ∙ or_else-none (lookup k (entries labels))
        ∙ lookup-entries labels k)
