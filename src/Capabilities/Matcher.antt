-- ===== src/Capabilities/Matcher.antt =====
-- app/capabilities/matcher.py and gap_analyzer.py: the best provider of each required capability,
-- and the capabilities that have none.
use Prim.Native.Nat.{Ordering}
use Prim.Native.String.{compare}
use orchestration_system.Common.{
  ℕ, String, Bool, true, false, ◌&&◌, ◌||◌, Option, none, some, List, [], ◌∷◌, map, ◌==◌, ltb,
  if◌then◌else◌, str_eq, contains, filter, any,
}
use orchestration_system.Enums.{ProviderType}
use orchestration_system.Database.{Db, Capability, CapabilityProvider}
use orchestration_system.Capabilities.Schemas.{MatchedProvider, GapAnalysisResult}

-- `_TYPE_RANK`
unfoldable pub type_rank : ProviderType → ℕ
type_rank ProviderType.agent = 0
type_rank ProviderType.mcp = 1
type_rank ProviderType.library = 2

-- `<` on texts
unfoldable pub text_less : String → String → Bool
text_less s t = elim (compare s t) [ Ordering.lt ↦ true | _ ↦ false ]

-- `<` on the sort keys (priority, type rank, name)
unfoldable pub key_less : CapabilityProvider → CapabilityProvider → Bool
unfolding type_rank text_less
key_less p q =
    ltb p.priority q.priority
    || (p.priority == q.priority
        && (ltb (type_rank p.provider_type) (type_rank q.provider_type)
            || (type_rank p.provider_type == type_rank q.provider_type
                && text_less p.provider_name q.provider_name)))

-- The first element of a stable sort: the first of the least members.
unfoldable pub least {ℓ} : {A : Type ℓ} → (A → A → Bool) → List A → Option A
least less [] = none
least less (x ∷ xs) = elim (least less xs) [
  | none ↦ some x
  | some y ↦ some (if less y x then y else x)
]

-- the join of `_match_one`: an available provider of a capability with the name
unfoldable pub provides : List Capability → String → CapabilityProvider → Bool
provides capabilities name p =
    str_eq p.status "available"
    && any (λ c. c.id == p.capability_id && str_eq c.name name) capabilities

-- `CapabilityMatcher._match_one`
unfoldable pub match_one : Db → String → Option MatchedProvider
unfolding least key_less provides
match_one db name = elim (least key_less (filter (provides db.capabilities name) db.providers)) [
  | none ↦ none
  | some best ↦ some (record {
    capability = name;
    provider_name = best.provider_name;
    provider_type = best.provider_type;
  })
]

-- The keys of a dict in the order of their first insertion: the names that were not seen.
unfoldable pub fresh_names : List String → List String → List String
fresh_names seen [] = []
fresh_names seen (name ∷ names) = elim (contains seen name) [
  | true ↦ fresh_names seen names
  | false ↦ name ∷ fresh_names (name ∷ seen) names
]

-- `CapabilityMatcher.match`, the dict as a list of its items
unfoldable pub match_all : Db → List String → List (String × Option MatchedProvider)
unfolding fresh_names match_one
match_all db required = map (λ name. (name, match_one db name)) (fresh_names [] required)

-- `sorted` on texts
unfoldable pub insert_sorted : String → List String → List String
unfolding text_less
insert_sorted s [] = s ∷ []
insert_sorted s (t ∷ ts) =
    let rest = insert_sorted s ts in if text_less t s then t ∷ rest else s ∷ t ∷ ts

unfoldable pub sorted : List String → List String
unfolding insert_sorted
sorted [] = []
sorted (s ∷ ss) = insert_sorted s (sorted ss)

unfoldable pub matched_of : List (String × Option MatchedProvider) → List MatchedProvider
matched_of [] = []
matched_of ((name, none) ∷ rest) = matched_of rest
matched_of ((name, some m) ∷ rest) = m ∷ matched_of rest

unfoldable pub unmatched_of : List (String × Option MatchedProvider) → List String
unmatched_of [] = []
unmatched_of ((name, none) ∷ rest) = name ∷ unmatched_of rest
unmatched_of ((name, some m) ∷ rest) = unmatched_of rest

-- `GapAnalyzer.analyze`
unfoldable pub analyze : Db → List String → GapAnalysisResult
unfolding match_all matched_of unmatched_of sorted
analyze db required =
    let matches = match_all db required in
    record {
      required = required;
      matched = matched_of matches;
      missing = sorted (unmatched_of matches);
    }
