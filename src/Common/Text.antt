-- ===== src/Common/Text.antt =====
-- Texts that are only compared: state names, event names, keys.
use Prim.Native.String.{String, ◌++◌}
use mathlib.Core.Path.{◌≡◌, refl, sym, ◌∙◌}
use mathlib.Core.Logic.{◌≢◌, inl, inr}
use mathlib.Core.Bool.{Bool, true, false, ◌||◌, false≢true}
use mathlib.Core.List.{List, [], ◌∷◌}
use text.Mathlib.Text.{◌==◌}
use text.Mathlib.TextEquality.{eq_iff}
use orchestration_system.Common.Tests.{Bool-cases}

unfoldable pub str_eq : String → String → Bool
str_eq s t = s == t

pub str_eq→eq : (s t : String) → str_eq s t ≡ true → s ≡ t
unfolding str_eq
str_eq→eq s t h = (eq_iff s t).0 h

pub eq→str_eq : (s t : String) → s ≡ t → str_eq s t ≡ true
unfolding str_eq
eq→str_eq s t h = (eq_iff s t).1 h

pub str_eq_differ : (s t : String) → s ≢ t → str_eq s t ≡ false
str_eq_differ s t differ = elim (Bool-cases (str_eq s t)) [
  | inl same ↦ absurd (differ (str_eq→eq s t same))
  | inr miss ↦ miss
]

pub str_eq_comm : (s t : String) → str_eq s t ≡ str_eq t s
str_eq_comm s t = elim (Bool-cases (str_eq s t)) [
  | inl same ↦ same ∙ sym (eq→str_eq t s (sym (str_eq→eq s t same)))
  | inr miss ↦
      miss ∙ sym (str_eq_differ t s (λ same. false≢true (sym miss ∙ eq→str_eq s t (sym same))))
]

-- `s in texts`
abbrev pub contains : List String → String → Bool
contains [] s = false
contains (t ∷ ts) s = str_eq s t || contains ts s

-- Equal texts are in the same lists.
pub contains_alike :
    (seen : List String) (s n : String) → str_eq n s ≡ true → contains seen n ≡ contains seen s
contains_alike seen s n same = rw (str_eq→eq n s same) refl

-- `separator.join(texts)`
unfoldable pub join : String → List String → String
join separator [] = ""
join separator (s ∷ []) = s
join separator (s ∷ t ∷ rest) = s ++ separator ++ join separator (t ∷ rest)
