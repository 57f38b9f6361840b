-- ===== src/Policy/Order.antt =====
-- What the order of the rules gives: the decision is the most restrictive that any rule calls for.
use mathlib.Core.List.{Memᴰ}
use orchestration_system.Common.{
  ℕ, ◌≤◌, ◌≡◌, refl, sym, Bool, true, false, ◌&&◌, List, [], ◌∷◌, arith, leb, Bool-cases, inl, inr,
  all, all_sound, &&-eq-true,
}
use orchestration_system.Enums.{PolicyDecision}
use orchestration_system.Policy.Schemas.{ExpansionProposal}
use orchestration_system.Policy.Engine.{Rule, rules, judge, first_match, decide}

-- `_SEVERITY` of app/expansion/service.py
unfoldable pub severity : PolicyDecision → ℕ
severity PolicyDecision.auto_approve = 0
severity PolicyDecision.user_approval = 1
severity PolicyDecision.expert_required = 2
severity PolicyDecision.auto_blocked = 3

-- no rule is more restrictive than one before it
is_descending : List Rule → Bool
is_descending [] = true
is_descending (r ∷ rest) =
    all (λ s. leb (severity s.decision) (severity r.decision)) rest && is_descending rest

rules_descend : is_descending rules ≡ true
unfolding is_descending rules severity
rules_descend = refl

first_match-hit :
    (r : Rule) (rest : List Rule) (p : ExpansionProposal)
    → r.predicate p ≡ true
    → first_match (r ∷ rest) p ≡ judge r
unfolding first_match
first_match-hit r rest p hit = rw hit

first_match-miss :
    (r : Rule) (rest : List Rule) (p : ExpansionProposal)
    → r.predicate p ≡ false
    → first_match (r ∷ rest) p ≡ first_match rest p
unfolding first_match
first_match-miss r rest p miss = rw miss

leb→le : (a b : ℕ) → leb a b ≡ true → a ≤ b
leb→le a b h = ground arith

first_match-max :
    (rs : List Rule) (p : ExpansionProposal) (rule : Rule)
    → is_descending rs ≡ true
    → Memᴰ rule rs
    → rule.predicate p ≡ true
    → severity rule.decision ≤ severity (first_match rs p).decision
unfolding is_descending
first_match-max [] p rule desc mem holds = elim mem [ ]
first_match-max (r ∷ rest) p rule desc (Memᴰ.head same) holds =
    rw (first_match-hit r rest p (rw (sym same) holds)) (rw same (omega arith))
first_match-max (r ∷ rest) p rule desc (Memᴰ.tail mem) holds =
    let below = (&&-eq-true desc).0 in
    let later =
      (&&-eq-true {a = all (λ s. leb (severity s.decision) (severity r.decision)) rest} desc).1 in
    elim (Bool-cases (r.predicate p)) [
      | inl hit ↦ rw (first_match-hit r rest p hit) (
          leb→le _ _
            (all_sound (λ s. leb (severity s.decision) (severity r.decision)) rule rest below mem))
      | inr miss ↦ rw (first_match-miss r rest p miss) (first_match-max rest p rule later mem holds)
    ]

-- Every rule that fits a proposal asks for at most what the engine decides: no later and milder rule
-- wins over an earlier one, and the fallback is never milder than a rule that fits.
decide-most_restrictive :
    (p : ExpansionProposal) (rule : Rule)
    → Memᴰ rule rules
    → rule.predicate p ≡ true
    → severity rule.decision ≤ severity (decide p).decision
unfolding decide
decide-most_restrictive p rule mem holds = first_match-max rules p rule rules_descend mem holds
