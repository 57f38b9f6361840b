-- ===== src/Capabilities/Gaps.antt =====
-- What the gap analysis reports: the required capabilities that nothing available provides.
use orchestration_system.Common.{
  contains_alike, String, true, not, ◌&&◌, ◌||◌, ◌≡◌, refl, ◌∙◌, ap, List, [], ◌∷◌, map, str_eq,
  str_eq→eq, contains, Bool-cases, Option-cases, inl, inr, is_some, arith,
}
use orchestration_system.Database.{Db}
use orchestration_system.Capabilities.Matcher.{
  text_less, insert_sorted, sorted, fresh_names, unmatched_of, match_all, match_one, analyze,
}

contains-insert_sorted :
    (s : String) (ts : List String) (n : String)
    → contains (insert_sorted s ts) n ≡ (str_eq n s || contains ts n)
unfolding insert_sorted
contains-insert_sorted s [] n = refl
contains-insert_sorted s (t ∷ ts) n = elim (Bool-cases (text_less t s)) [
  | inl before ↦ rw (before, contains-insert_sorted s ts n) (ground arith)
  | inr after ↦ rw after refl
]

contains-sorted : (ss : List String) (n : String) → contains (sorted ss) n ≡ contains ss n
unfolding sorted
contains-sorted [] n = refl
contains-sorted (s ∷ ss) n = contains-insert_sorted s (sorted ss) n ∙ rw (contains-sorted ss n) refl

contains-fresh_names :
    (seen names : List String) (n : String)
    → contains (fresh_names seen names) n ≡ (contains names n && not (contains seen n))
unfolding fresh_names
contains-fresh_names seen [] n = refl
contains-fresh_names seen (name ∷ names) n = elim (Bool-cases (contains seen name)) [
  | inl known ↦
      rw (known, fresh_names, contains-fresh_names seen names n)
        (ground (arith, contains_alike seen name n))
  | inr fresh ↦
      rw (fresh, fresh_names, contains-fresh_names (name ∷ seen) names n)
        (ground (arith, contains_alike seen name n))
]

module _ (db : Db) where
  matched_alike :
      (s n : String) → str_eq n s ≡ true → is_some (match_one db n) ≡ is_some (match_one db s)
  matched_alike s n same = rw (str_eq→eq n s same) refl

  contains-unmatched_of :
      (names : List String) (n : String)
      → contains (unmatched_of (map (λ name. (name, match_one db name)) names)) n
        ≡ (contains names n && not (is_some (match_one db n)))
  unfolding unmatched_of
  contains-unmatched_of [] n = refl
  contains-unmatched_of (name ∷ names) n = elim (Option-cases (match_one db name)) [
    | inl missing ↦
        rw (missing, contains-unmatched_of names n)
          (ground (arith, matched_alike name n, ap is_some missing))
    | inr (m, found) ↦
        rw (found, contains-unmatched_of names n)
          (ground (arith, matched_alike name n, ap is_some found))
  ]

  -- A name is reported as missing exactly when it is required and no available provider of it was
  -- matched.
  pub analyze-missing :
      (required : List String) (n : String)
      → contains (analyze db required).missing n
        ≡ (contains required n && not (is_some (match_one db n)))
  unfolding analyze match_all
  analyze-missing required n =
      contains-sorted (unmatched_of (match_all db required)) n
      ∙ contains-unmatched_of (fresh_names [] required) n
      ∙ rw (contains-fresh_names [] required n) (ground arith)
