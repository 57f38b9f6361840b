-- ===== src/Consultation/Masking.antt =====
-- app/consultation/masking.py: what is replaced, counted and kept. How a compiled pattern of `re` cuts
-- a text into matches and the rest is a parameter; the replacement functions, their order and their
-- counts are the code's.
use Prim.Native.Char.{Char}
use Prim.Native.String.{◌++◌}
use orchestration_system.Common.{
  ℕ, ◌+◌, String, Bool, ◌&&◌, List, [], ◌∷◌, ltb, ◌==◌, if◌then◌else◌, str_eq,
}

-- `MASK`
abbrev pub mask : String
mask = "***MASKED***"

-- What a pattern makes of a text: the text before a match, and the match with the groups that the
-- replacement keeps in front of the mask; last, the text after the last match.
pub record Hit : Type 0 where
  pub before : String
  pub whole : String
  pub kept : String

pub record Cut : Type 0 where
  pub hits : List Hit
  pub rest : String

abbrev pub Pattern : Type 0
Pattern = String → Cut

-- `_KV_PATTERN` keeps the groups key and q, `_BEARER_PATTERN` the scheme; `_VALUE_PATTERNS` are pairs of
-- a kind and a pattern, of which "url_credentials" keeps its scheme.
pub record Patterns : Type 0 where
  -- the class `\d`
  pub is_decimal : Char → Bool
  pub kv_pattern : Pattern
  pub bearer_pattern : Pattern
  pub value_patterns : List (String × Pattern)

-- A dict from kinds to numbers
abbrev pub Findings : Type 0
Findings = List (String × ℕ)

add_to : String → ℕ → Findings → Findings
add_to kind n [] = (kind, n) ∷ []
add_to kind n ((k, v) ∷ findings) =
    if str_eq k kind then (k, v + n) ∷ findings else (k, v) ∷ add_to kind n findings

-- `_bump`
unfoldable pub bump : String → ℕ → Findings → Findings
unfolding add_to
bump kind n findings = if n == 0 then findings else add_to kind n findings

digits_in : (Char → Bool) → String → ℕ
digits_in is_decimal String.[] = 0
digits_in is_decimal (String.◌∷◌ ch s) = (if is_decimal ch then 1 else 0) + digits_in is_decimal s

-- a match of the card pattern with fewer than 13 digits is left as it is
unfoldable pub is_spared : (Char → Bool) → String → String → Bool
unfolding digits_in
is_spared is_decimal kind token = str_eq kind "card_number" && ltb (digits_in is_decimal token) 13

-- The text that stands for a match: of `_kv_sub`, `_bearer_sub`, `_url_sub` and `_sub`
unfoldable pub replacement : String → Hit → String
replacement kind hit =
    if str_eq kind "sensitive_kv"
    then hit.kept ++ mask
    else if str_eq kind "auth_header"
    then hit.kept ++ " " ++ mask
    else if str_eq kind "url_credentials"
    then hit.kept ++ mask ++ "@"
    else mask

module _ (is_decimal : Char → Bool) where
  -- `pattern.sub`, match by match
  unfoldable pub substitute : String → List Hit → String → Findings → String × Findings
  unfolding is_spared replacement bump
  substitute kind [] rest findings = (rest, findings)
  substitute kind (hit ∷ hits) rest findings =
      let spared = is_spared is_decimal kind hit.whole in
      let after = substitute kind hits rest (if spared then findings else bump kind 1 findings) in
      (hit.before ++ (if spared then hit.whole else replacement kind hit) ++ after.0, after.1)

  unfoldable pub apply_pattern : String → Pattern → String × Findings → String × Findings
  unfolding substitute
  apply_pattern kind pattern (text, findings) =
      let cut = pattern text in substitute kind cut.hits cut.rest findings

  unfoldable pub apply_patterns : List (String × Pattern) → String × Findings → String × Findings
  unfolding apply_pattern
  apply_patterns [] masked = masked
  apply_patterns ((kind, pattern) ∷ patterns) masked =
      apply_patterns patterns (apply_pattern kind pattern masked)

-- `mask_secrets`, the masked text and the findings
unfoldable pub mask_secrets : Patterns → String → String × Findings
unfolding apply_patterns apply_pattern
mask_secrets patterns text =
    let d = patterns.is_decimal in
    if str_eq text ""
    then ("", [])
    else apply_patterns d patterns.value_patterns (
        apply_pattern d "auth_header" patterns.bearer_pattern
          (apply_pattern d "sensitive_kv" patterns.kv_pattern (text, [])))

unfoldable pub merge : Findings → Findings → Findings
unfolding bump
merge [] findings = findings
merge ((kind, n) ∷ found) findings = merge found (bump kind n findings)

-- `mask_and_merge`
unfoldable pub mask_and_merge : Patterns → String → Findings → String × Findings
unfolding mask_secrets merge
mask_and_merge patterns text findings =
    let (masked, found) = mask_secrets patterns text in (masked, merge found findings)
