-- ===== src/Base/Slash.antt =====
-- Texts cut at their slashes.
use Prim.Native.Char.{Char, code}
use Prim.Native.String.{String}
use text.Mathlib.TextLemmas.{cons-eq-cons, nil-append, cons-append}
use text.Mathlib.TextEquality.{Char-path}
use mathlib.Core.Path.{◌≡◌, refl, sym, ap, ap₂, ◌∙◌}
use mathlib.Core.Logic.{◌≢◌, inl, inr}
use mathlib.Core.Bool.{Bool, true, false}
use mathlib.Core.List.{List, [], ◌∷◌, ◌++◌}
use kubernetes_controller_sh.Base.Tests.{eqb, eqb_iff, Bool-cases, if◌then◌else◌}
use kubernetes_controller_sh.Base.Text.{◌<>◌}

abbrev pub slash : Char
slash = "/"

-- No character of the text is a slash.
abbrev pub NoSlash : String → Type 0
NoSlash String.[] = Unit
NoSlash (String.◌∷◌ c s) = (c ≢ slash) × NoSlash s

pub slash-append : (u : String) → "/" <> u ≡ String.◌∷◌ slash u
slash-append u = cons-append slash String.[] u ∙ ap (λ t. String.◌∷◌ slash t) (nil-append u)

pub slash_end : (u : String) → String.[] <> "/" <> u ≡ String.◌∷◌ slash u
slash_end u = nil-append ("/" <> u) ∙ slash-append u

-- The first slash ends the first part.
pub split_slash :
    (s t u v : String) → NoSlash s → NoSlash t → s <> "/" <> u ≡ t <> "/" <> v → (s ≡ t) × (u ≡ v)
split_slash String.[] String.[] u v p q e =
    (refl, (cons-eq-cons.0 (sym (slash_end u) ∙ e ∙ slash_end v)).1)
split_slash String.[] (String.◌∷◌ c t) u v p q e =
    absurd (q.0 (sym (cons-eq-cons.0 (sym (slash_end u) ∙ e ∙ cons-append c t ("/" <> v))).0))
split_slash (String.◌∷◌ c s) String.[] u v p q e =
    absurd (p.0 (cons-eq-cons.0 (sym (cons-append c s ("/" <> u)) ∙ e ∙ slash_end v)).0)
split_slash (String.◌∷◌ c s) (String.◌∷◌ d t) u v p q e =
    let (head, rest) =
      cons-eq-cons.0 (sym (cons-append c s ("/" <> u)) ∙ e ∙ cons-append d t ("/" <> v)) in
    let (same, end) = split_slash s t u v p.1 q.1 rest in
    (ap₂ (λ x y. String.◌∷◌ x y) head same, end)

abbrev pub is_char : Char → Char → Bool
is_char c d = eqb (code c) (code d)

pub is_char_eq : (c d : Char) → is_char c d ≡ true → c ≡ d
is_char_eq c d h = Char-path c d ((eqb_iff (code c) (code d)).0 h)

pub is_char_ne : (c d : Char) → c ≢ d → is_char c d ≡ false
is_char_ne c d h = elim (Bool-cases (is_char c d)) [
  | inl e ↦ absurd (h (Char-path c d ((eqb_iff (code c) (code d)).0 e)))
  | inr ne ↦ ne
]

abbrev cons_head : Char → List String → List String
cons_head c [] = String.◌∷◌ c String.[] ∷ []
cons_head c (x ∷ xs) = String.◌∷◌ c x ∷ xs

-- The elements of a path: `strings.Split(path, "/")`.
unfoldable pub elements : String → List String
elements String.[] = "" ∷ []
elements (String.◌∷◌ c s) =
    let rest = elements s in if is_char c slash then "" ∷ rest else cons_head c rest

cons_head-append :
    (c : Char) (s : String) (ys : List String)
    → cons_head c (elements s ++ ys) ≡ cons_head c (elements s) ++ ys
unfolding elements
cons_head-append c String.[] ys = refl
cons_head-append c (String.◌∷◌ d s) ys = elim (Bool-cases (is_char d slash)) [
  | inl e ↦ rw e
  | inr ne ↦ rw ne (go (elements s))
]
  where
    go :
        (xs : List String) → cons_head c (cons_head d xs ++ ys) ≡ cons_head c (cons_head d xs) ++ ys
    go [] = refl
    go (x ∷ xs) = refl

elements-cons :
    (c : Char) (s : String)
    → elements (String.◌∷◌ c s)
      ≡ (if is_char c slash then "" ∷ elements s else cons_head c (elements s))
unfolding elements
elements-cons c s = refl

if-append :
    (b : Bool) (c : Char) (s : String) (ys : List String)
    → (if b then "" ∷ (elements s ++ ys) else cons_head c (elements s ++ ys))
      ≡ (if b then "" ∷ elements s else cons_head c (elements s)) ++ ys
if-append true c s ys = refl
if-append false c s ys = cons_head-append c s ys

pub elements-append : (s t : String) → elements (s <> "/" <> t) ≡ elements s ++ elements t
elements-append String.[] t = ap elements (slash_end t) ∙ (unfold elements in refl)
elements-append (String.◌∷◌ c s) t =
    ap elements (cons-append c s ("/" <> t))
    ∙ elements-cons c (s <> "/" <> t)
    ∙ ap (λ es. if is_char c slash then "" ∷ es else cons_head c es) (elements-append s t)
    ∙ if-append (is_char c slash) c s (elements t)
    ∙ ap (λ es. es ++ elements t) (sym (elements-cons c s))

pub elements-NoSlash : (s : String) → NoSlash s → elements s ≡ s ∷ []
unfolding elements
elements-NoSlash String.[] h = refl
elements-NoSlash (String.◌∷◌ c s) h = rw (is_char_ne c slash h.0) (rw (elements-NoSlash s h.1) refl)
