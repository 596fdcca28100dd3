-- ===== src/Webhook/Escape.antt =====
-- The escaping of label keys in JSON patch paths (pkg/webhook/sharder/handler.go).
use Prim.Native.Char.{Char}
use text.Mathlib.TextLemmas.{nil-append, cons-append}
use kubernetes_controller_sh.Base.{
  String, ◌<>◌, ◌≡◌, ◌≢◌, refl, sym, ap, ◌∙◌, true, false, if◌then◌else◌, Bool-cases, inl, inr,
  arith,
}
use kubernetes_controller_sh.Base.Slash.{NoSlash, slash, is_char, is_char_eq}

abbrev tilde : Char
tilde = "~"

escape_char : Char → String
escape_char c =
    if is_char c tilde then "~0" else if is_char c slash then "~1" else String.◌∷◌ c String.[]

-- `rfc6901Encoder.Replace`: each character is replaced on its own.
unfoldable pub escape : String → String
unfolding escape_char
escape String.[] = ""
escape (String.◌∷◌ c s) = escape_char c <> escape s

-- The character that a tilde and `c` stand for in RFC 6901.
read_tilde : Char → Char
read_tilde c = if is_char c "0" then tilde else slash

-- Reading a reference token of RFC 6901.
unfoldable pub unescape : String → String
unfolding read_tilde
unescape String.[] = ""
unescape (String.◌∷◌ c String.[]) = String.◌∷◌ c String.[]
unescape (String.◌∷◌ c (String.◌∷◌ d s)) =
    let pair = String.◌∷◌ (read_tilde d) (unescape s) in
    let plain = String.◌∷◌ c (unescape (String.◌∷◌ d s)) in if is_char c tilde then pair else plain

unescape_plain :
    (c : Char) (t : String)
    → is_char c tilde ≡ false
    → unescape (String.◌∷◌ c t) ≡ String.◌∷◌ c (unescape t)
unfolding unescape
unescape_plain c String.[] h = refl
unescape_plain c (String.◌∷◌ d t) h = rw h refl

unescape_pair :
    (d : Char) (t : String)
    → unescape (String.◌∷◌ tilde (String.◌∷◌ d t)) ≡ String.◌∷◌ (read_tilde d) (unescape t)
unfolding unescape
unescape_pair d t = refl

two_chars :
    (c d : Char) (t : String)
    → (String.◌∷◌ c (String.◌∷◌ d String.[])) <> t ≡ String.◌∷◌ c (String.◌∷◌ d t)
two_chars c d t =
    cons-append c (String.◌∷◌ d String.[]) t
    ∙ ap (λ u. String.◌∷◌ c u) (cons-append d String.[] t ∙ ap (λ u. String.◌∷◌ d u) (nil-append t))

one_char : (c : Char) (t : String) → (String.◌∷◌ c String.[]) <> t ≡ String.◌∷◌ c t
one_char c t = cons-append c String.[] t ∙ ap (λ u. String.◌∷◌ c u) (nil-append t)

unescape-escape_char :
    (c : Char) (t : String) → unescape (escape_char c <> t) ≡ String.◌∷◌ c (unescape t)
unfolding escape_char read_tilde
unescape-escape_char c t = elim (Bool-cases (is_char c tilde)) [
  | inl e ↦ rw e (
      ap unescape (two_chars tilde "0" t)
      ∙ unescape_pair "0" t
      ∙ ap (λ x. String.◌∷◌ x (unescape t)) (sym (is_char_eq c tilde e)))
  | inr not_tilde ↦ rw not_tilde (elim (Bool-cases (is_char c slash)) [
    | inl e ↦ rw e (
        ap unescape (two_chars tilde "1" t)
        ∙ unescape_pair "1" t
        ∙ ap (λ x. String.◌∷◌ x (unescape t)) (sym (is_char_eq c slash e)))
    | inr not_slash ↦ rw not_slash (ap unescape (one_char c t) ∙ unescape_plain c t not_tilde)
  ])
]

-- A label key that is escaped for a JSON pointer is read back as the key.
pub unescape-escape : (s : String) → unescape (escape s) ≡ s
unfolding escape
unescape-escape String.[] = unfold unescape in refl
unescape-escape (String.◌∷◌ c s) =
    unescape-escape_char c (escape s) ∙ ap (λ t. String.◌∷◌ c t) (unescape-escape s)

NoSlash-append : (s t : String) → NoSlash s → NoSlash t → NoSlash (s <> t)
NoSlash-append String.[] t p q = rw (nil-append t) q
NoSlash-append (String.◌∷◌ c s) t p q = rw (cons-append c s t) (p.0, NoSlash-append s t p.1 q)

is_char_self : (d : Char) → is_char d d ≡ true
is_char_self d = ground arith

char_ne : (c d : Char) → is_char c d ≡ false → c ≢ d
char_ne c d h e = cc (h, ap (λ x. is_char x d) e, is_char_self d)

escape_char-NoSlash : (c : Char) → NoSlash (escape_char c)
unfolding escape_char
escape_char-NoSlash c = elim (Bool-cases (is_char c tilde)) [
  | inl e ↦ rw e (char_ne "~" slash refl, (char_ne "0" slash refl, tt))
  | inr not_tilde ↦ rw not_tilde (elim (Bool-cases (is_char c slash)) [
    | inl e ↦ rw e (char_ne "~" slash refl, (char_ne "1" slash refl, tt))
    | inr not_slash ↦ rw not_slash (char_ne c slash not_slash, tt)
  ])
]

-- An escaped label key is one reference token of a JSON pointer: it holds no slash.
pub escape-NoSlash : (s : String) → NoSlash (escape s)
unfolding escape
escape-NoSlash String.[] = tt
escape-NoSlash (String.◌∷◌ c s) =
    NoSlash-append (escape_char c) (escape s) (escape_char-NoSlash c) (escape-NoSlash s)
