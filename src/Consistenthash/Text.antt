-- ===== src/Consistenthash/Text.antt =====
-- `strconv.FormatInt(i, 10)` for `i >= 0`, as `AddNodes` numbers the tokens of a node.
use kubernetes_controller_sh.Base.{
  ℕ, zero, suc, ◌+◌, ◌/◌, ◌%◌, ◌<◌, String, ◌<>◌, ◌≡◌, refl, List, [], ◌∷◌, get_or, ltb, arith,
  if◌then◌else◌,
}

abbrev digits : List String
digits = "0" ∷ "1" ∷ "2" ∷ "3" ∷ "4" ∷ "5" ∷ "6" ∷ "7" ∷ "8" ∷ "9" ∷ []

digit : ℕ → String
digit d = get_or digits d ""

-- A number below 10 ^ fuel is written in full.
format_loop : ℕ → ℕ → String
unfolding digit
format_loop zero n = ""
format_loop (suc fuel) n =
    let front = format_loop fuel (n / 10) in if ltb n 10 then digit n else front <> digit (n % 10)

unfoldable pub format_int : ℕ → String
unfolding format_loop
format_int n = format_loop (suc n) n

format_int_samples : List String
format_int_samples = format_int 0 ∷ format_int 7 ∷ format_int 42 ∷ format_int 1090 ∷ []

format_int_test : format_int_samples ≡ "0" ∷ "7" ∷ "42" ∷ "1090" ∷ []
unfolding format_int_samples format_int
format_int_test = refl

-- A leading digit 1 is the ten.
pub format_int_teen : (i : ℕ) → i < 10 → format_int (10 + i) ≡ "1" <> format_int i
unfolding format_int
format_int_teen zero h = refl
format_int_teen (suc zero) h = refl
format_int_teen (suc (suc zero)) h = refl
format_int_teen (suc (suc (suc zero))) h = refl
format_int_teen (suc (suc (suc (suc zero)))) h = refl
format_int_teen (suc (suc (suc (suc (suc zero))))) h = refl
format_int_teen (suc (suc (suc (suc (suc (suc zero)))))) h = refl
format_int_teen (suc (suc (suc (suc (suc (suc (suc zero))))))) h = refl
format_int_teen (suc (suc (suc (suc (suc (suc (suc (suc zero)))))))) h = refl
format_int_teen (suc (suc (suc (suc (suc (suc (suc (suc (suc zero))))))))) h = refl
format_int_teen (suc (suc (suc (suc (suc (suc (suc (suc (suc (suc i)))))))))) h =
    absurd (omega arith)
