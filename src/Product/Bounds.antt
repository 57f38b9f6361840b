-- ===== src/Product/Bounds.antt =====
-- The size of an analysis (app/product/core_agent.py).
use mathlib.Core.List.{◌++◌ as append}
use orchestration_system.Common.{
  ℕ, suc, ◌+◌, ◌≤◌, String, ◌≡◌, refl, List, [], ◌∷◌, length, count, count-append, arith,
}
use orchestration_system.Product.Schemas.{RequirementDraft, ProjectInput, combined_text}
use orchestration_system.Product.CoreAgent.{
  standard_unknowns, confirmed_draft, split_sentences, collect_requirements, or_goal,
  unknown_requirements, goal_of, analyze,
}
use orchestration_system.Product.Known.{is_unknown, collect-induction, base-known}

length-append : (rs us : List RequirementDraft) → length (append rs us) ≡ length rs + length us
length-append [] us = ground arith
length-append (r ∷ rs) us = ground (arith, length-append rs us)

collect-bound : (sentences : List String) → length (collect_requirements sentences [] []) ≤ 20
collect-bound sentences =
    collect-induction (λ rs. length rs ≤ 20)
      (λ rs sentence room h.
        ground (arith, length-append rs (confirmed_draft (suc (length rs)) sentence ∷ []), room, h))
      sentences [] [] (omega arith)

or_goal-bound :
    (goal : String) (rs : List RequirementDraft)
    → length rs ≤ 20
    → (1 ≤ length (or_goal goal rs)) × (length (or_goal goal rs) ≤ 20)
or_goal-bound goal [] h = (omega arith, omega arith)
or_goal-bound goal (r ∷ rs) h = (ground arith, h)

-- two requirements are added, both of them unknown
two_unknown :
    (n : ℕ)
    → (length (unknown_requirements n standard_unknowns) ≡ 2)
      × (count is_unknown (unknown_requirements n standard_unknowns) ≡ 2)
unfolding unknown_requirements standard_unknowns
two_unknown n = (refl, refl)

-- Whatever the text, the analysis has at least one and at most 20 requirements that are known, and
-- exactly two that are not.
pub analyze-bounds :
    (lower : String → String) (input : ProjectInput)
    → (3 ≤ length (analyze lower input).functional_requirements)
      × (length (analyze lower input).functional_requirements ≤ 22)
      × (count is_unknown (analyze lower input).functional_requirements ≡ 2)
unfolding analyze
analyze-bounds lower input =
    let sentences = split_sentences (combined_text input) in
    let goal = goal_of lower input.project_name sentences in
    let rs = or_goal goal (collect_requirements sentences [] []) in
    let us = unknown_requirements (suc (length rs)) standard_unknowns in
    let (least, most) =
      or_goal-bound goal (collect_requirements sentences [] []) (collect-bound sentences) in
    let (two, unknown) = two_unknown (suc (length rs)) in
    (
      ground (arith, length-append rs us, two, least),
      ground (arith, length-append rs us, two, most),
      ground (arith, count-append is_unknown rs us, base-known goal sentences, unknown),
    )
