-- ===== src/Base/Texts.antt =====
-- Text two ways: `Text` where the program measures and cuts characters, `String` for keys and ids.
use Prim.Native.Nat.{ℕ}
use Prim.Native.Char.{code}
use Prim.Native.String.{String}
use mathlib.Core.Path.{◌≡◌}
use mathlib.Core.Bool.{Bool, true, false, ◌&&◌, ◌||◌}
use mathlib.Core.List.{List, [], ◌∷◌}
use text.Mathlib.Text.{◌==◌}
use eda_agent.Base.Tests.{◌==◌ as num_eq, leb}
use text.Mathlib.TextPositions.{eq_refl}

-- The code points of a text.
abbrev pub Text : Type 0
Text = List ℕ

abbrev pub codes : String → Text
codes String.[] = []
codes (String.◌∷◌ c s) = code c ∷ codes s

abbrev pub str_eq : String → String → Bool
str_eq a b = a == b

-- Python's truth value of a text.
abbrev pub nonempty : String → Bool
nonempty String.[] = false
nonempty (String.◌∷◌ c s) = true

abbrev pub mem_str : String → List String → Bool
mem_str a [] = false
mem_str a (x ∷ xs) = str_eq x a || mem_str a xs

pub str_eq_refl : (a : String) → str_eq a a ≡ true
str_eq_refl a = eq_refl a

abbrev within : ℕ → ℕ → ℕ → Bool
within lo hi n = leb lo n && leb n hi

-- The code points that Python's str.strip takes off.
abbrev pub is_space : ℕ → Bool
is_space n =
    within 9 13 n
    || (within 28 32 n
        || (num_eq n 133
            || (num_eq n 160
                || (num_eq n 5760
                    || (within 8192 8202 n
                        || (within 8232 8233 n
                            || (num_eq n 8239 || (num_eq n 8287 || num_eq n 12288))))))))

abbrev lstrip : String → String
lstrip String.[] = String.[]
lstrip (String.◌∷◌ c s) = elim (is_space (code c)) [ true ↦ lstrip s | false ↦ String.◌∷◌ c s ]

abbrev rstrip : String → String
rstrip String.[] = String.[]
rstrip (String.◌∷◌ c s) = elim (rstrip s) [
  | String.[] ↦ elim (is_space (code c)) [ true ↦ String.[] | false ↦ String.◌∷◌ c String.[] ]
  | String.◌∷◌ d t ↦ String.◌∷◌ c (String.◌∷◌ d t)
]

-- text.strip()
unfoldable pub strip : String → String
strip s = lstrip (rstrip s)

-- Equality of texts by their code points.
unfoldable pub text_eq : Text → Text → Bool
text_eq [] [] = true
text_eq (c ∷ s) [] = false
text_eq [] (d ∷ t) = false
text_eq (c ∷ s) (d ∷ t) = num_eq c d && text_eq s t

-- What a call of other code gives back: a value, or the text of an exception.
pub data Outcome (A : Type 0) : Type 0 where
  returned : A → Outcome A
  raised : String → Outcome A
