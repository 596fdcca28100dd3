-- ===== src/Webhook/Path.antt =====
-- The webhook path of a ring (pkg/webhook/sharder/add.go).
use Prim.Native.String.{slice, len}
use text.Mathlib.Text.{starts_with}
use text.Mathlib.TextPositions.{starts_with-append, slice-append_right, len-append}
use text.Mathlib.TextLemmas.{append-nil}
use kubernetes_controller_sh.Base.{
  is_neq, String, ◌<>◌, <>_assoc, ◌==◌, ◌≡◌, ◌≢◌, refl, ap, ◌∙◌, List, [], ◌∷◌, ◌++◌, if◌then◌else◌,
  ◌||◌,
}
use mathlib.Core.List.{reverse}
use kubernetes_controller_sh.Base.Result.{Result, ok, err}
use kubernetes_controller_sh.Base.Slash.{NoSlash, elements, elements-append, elements-NoSlash}

abbrev pub webhook_path_prefix : String
webhook_path_prefix = "/webhooks/sharder/controllerring/"

-- The loop of `path.Clean` over the elements of a rooted path; the elements kept so far are in `out`,
-- the last one first.
clean_elements : List String → List String → List String
clean_elements [] out = out
clean_elements (e ∷ es) out =
    clean_elements es (
      if e == "" || e == "."
      then out
      else if e == ".."
      then mathlib.Core.List.tail out
      else e ∷ out)

join_slash : List String → String
join_slash [] = ""
join_slash (e ∷ es) = "/" <> e <> join_slash es

finish : List String → String
unfolding join_slash
finish [] = "/"
finish (e ∷ es) = join_slash (e ∷ es)

-- `path.Clean` of a rooted path.
unfoldable pub clean : String → String
unfolding clean_elements finish
clean path = finish (reverse (clean_elements (elements path) []))

-- `path.Join` of a rooted path and an element; empty elements are ignored.
unfoldable pub join : String → String → String
join base element = if element == "" then clean base else clean (base <> "/" <> element)

unfoldable pub webhook_path_for_controller_ring : String → String
webhook_path_for_controller_ring ring_name = join webhook_path_prefix ring_name

-- `strings.TrimPrefix`
unfoldable pub trim_prefix : String → String → String
trim_prefix s prefix = if starts_with s prefix then slice s (len prefix) (len s) else s

pub data PathError : Type 0 where
  unexpected_request_path : String → PathError

-- The name of the ring that the path is for.
unfoldable pub controller_ring_for_webhook_path : String → Result PathError String
controller_ring_for_webhook_path request_path =
    if starts_with request_path webhook_path_prefix
    then (let name = trim_prefix request_path webhook_path_prefix in
        if name == "" then err (unexpected_request_path request_path) else ok name)
    else err (unexpected_request_path request_path)

clean_prefix :
    (name : String)
    → (elements webhook_path_prefix ++ name ∷ [])
      ≡ "" ∷ "webhooks" ∷ "sharder" ∷ "controllerring" ∷ "" ∷ name ∷ []
unfolding elements
clean_prefix name = refl

clean_name :
    (name : String)
    → name ≢ ""
    → name ≢ "."
    → name ≢ ".."
    → clean_elements ("" ∷ "webhooks" ∷ "sharder" ∷ "controllerring" ∷ "" ∷ name ∷ []) []
      ≡ name ∷ "controllerring" ∷ "sharder" ∷ "webhooks" ∷ []
unfolding clean_elements
clean_name name a b c =
    rw (is_neq name "" a) (rw (is_neq name "." b) (rw (is_neq name ".." c) refl))

prefix_parts :
    webhook_path_prefix ≡ "/" <> "webhooks" <> "/" <> "sharder" <> "/" <> "controllerring" <> "/"
prefix_parts = refl

join_name :
    (name : String)
    → join_slash ("webhooks" ∷ "sharder" ∷ "controllerring" ∷ name ∷ [])
      ≡ webhook_path_prefix <> name
unfolding join_slash
join_name name = rw prefix_parts (simp (<>_assoc, append-nil))

clean_prefix_name :
    (name : String)
    → NoSlash name
    → name ≢ ""
    → name ≢ "."
    → name ≢ ".."
    → clean (webhook_path_prefix <> "/" <> name) ≡ webhook_path_prefix <> name
unfolding clean
clean_prefix_name name h a b c =
    ap (λ es. finish (reverse (clean_elements es [])))
      (elements-append webhook_path_prefix name
        ∙ ap (λ es. elements webhook_path_prefix ++ es) (elements-NoSlash name h)
        ∙ clean_prefix name)
    ∙ ap (λ out. finish (reverse out)) (clean_name name a b c)
    ∙ join_name name

pub trim_prefix-append : (p name : String) → trim_prefix (p <> name) p ≡ name
unfolding trim_prefix
trim_prefix-append p name =
    rw (starts_with-append p name) (rw (len-append p name) (slice-append_right p name))

-- A ring whose name is one proper path element, as Kubernetes requires, has the path of that name.
webhook_path_lem :
    (name : String)
    → NoSlash name
    → name ≢ ""
    → name ≢ "."
    → name ≢ ".."
    → webhook_path_for_controller_ring name ≡ webhook_path_prefix <> name
unfolding webhook_path_for_controller_ring join
webhook_path_lem name h a b c = rw (is_neq name "" a) (clean_prefix_name name h a b c)

-- The webhook path of a ring leads back to the ring, if its name is not empty, no dot or two dots,
-- and has no slash, as Kubernetes requires of names.
pub controller_ring-webhook_path :
    (name : String)
    → NoSlash name
    → name ≢ ""
    → name ≢ "."
    → name ≢ ".."
    → controller_ring_for_webhook_path (webhook_path_for_controller_ring name) ≡ ok name
unfolding controller_ring_for_webhook_path
controller_ring-webhook_path name h a b c = rw (webhook_path_lem name h a b c) (
    rw (starts_with-append webhook_path_prefix name)
      (rw (trim_prefix-append webhook_path_prefix name) (rw (is_neq name "" a) refl)))
