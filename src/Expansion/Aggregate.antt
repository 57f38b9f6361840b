-- ===== src/Expansion/Aggregate.antt =====
-- The decision on several proposals is the most restrictive of theirs.
use mathlib.Core.List.{Memᴰ}
use orchestration_system.Common.{
  ℕ, ◌≤◌, ◌≡◌, refl, true, false, List, [], ◌∷◌, map, arith, ltb, Bool-cases, inl, inr, ◌⊎◌, ap,
}
use orchestration_system.Enums.{PolicyDecision}
use orchestration_system.Policy.Order.{severity}
use orchestration_system.Expansion.Service.{JudgedProposal, max_decision, aggregate, resolution_of}

-- `d` is the greatest of `ds`: none is more restrictive, and it is one of them.
pub record Greatest (ds : List PolicyDecision) (d : PolicyDecision) : Type 0 where
  pub upper : (e : PolicyDecision) → Memᴰ e ds → severity e ≤ severity d
  pub member : Memᴰ d ds

below : {a b c : ℕ} → ltb a b ≡ true → b ≤ c → a ≤ c
below h le = ground (arith, h, le)

not_below : {a b c : ℕ} → ltb a b ≡ false → a ≤ c → b ≤ c
not_below h le = ground (arith, h, le)

Greatest-one : (d : PolicyDecision) → Greatest (d ∷ []) d
Greatest-one d = record { upper = upper; member = Memᴰ.head refl }
  where
    upper : (e : PolicyDecision) → Memᴰ e (d ∷ []) → severity e ≤ severity d
    upper e (Memᴰ.head same) = rw same (omega arith)
    upper e (Memᴰ.tail mem) = elim mem [ ]

-- The first two are one decision, the more restrictive.
Greatest-more :
    (b d m : PolicyDecision) (ds : List PolicyDecision)
    → ltb (severity b) (severity d) ≡ true
    → Greatest (d ∷ ds) m
    → Greatest (b ∷ d ∷ ds) m
Greatest-more b d m ds more g = record { upper = upper; member = Memᴰ.tail g.member }
  where
    upper : (e : PolicyDecision) → Memᴰ e (b ∷ d ∷ ds) → severity e ≤ severity m
    upper e (Memᴰ.head same) = rw same (below more (g.upper d (Memᴰ.head refl)))
    upper e (Memᴰ.tail mem) = g.upper e mem

Greatest-less :
    (b d m : PolicyDecision) (ds : List PolicyDecision)
    → ltb (severity b) (severity d) ≡ false
    → Greatest (b ∷ ds) m
    → Greatest (b ∷ d ∷ ds) m
Greatest-less b d m ds less g = record { upper = upper; member = over g.member }
  where
    over : Memᴰ m (b ∷ ds) → Memᴰ m (b ∷ d ∷ ds)
    over (Memᴰ.head same) = Memᴰ.head same
    over (Memᴰ.tail mem) = Memᴰ.tail (Memᴰ.tail mem)

    upper : (e : PolicyDecision) → Memᴰ e (b ∷ d ∷ ds) → severity e ≤ severity m
    upper e (Memᴰ.head same) = g.upper e (Memᴰ.head same)
    upper e (Memᴰ.tail (Memᴰ.head same)) = rw same (not_below less (g.upper b (Memᴰ.head refl)))
    upper e (Memᴰ.tail (Memᴰ.tail mem)) = g.upper e (Memᴰ.tail mem)

max_decision-Greatest :
    (best : PolicyDecision) (ds : List PolicyDecision) → Greatest (best ∷ ds) (max_decision best ds)
unfolding max_decision
max_decision-Greatest best [] = Greatest-one best
max_decision-Greatest best (d ∷ ds) = elim (Bool-cases (ltb (severity best) (severity d))) [
  | inl more ↦ rw more (Greatest-more best d _ ds more (max_decision-Greatest d ds))
  | inr less ↦ rw less (Greatest-less best d _ ds less (max_decision-Greatest best ds))
]

-- the decisions of the judged proposals
abbrev pub decisions : List JudgedProposal → List PolicyDecision
decisions judged = map (λ j. j.judgment.decision) judged

-- The decision on judged proposals is one of theirs and none of theirs is more restrictive; where
-- there are none, it is to approve.
resolution_of-decision :
    (judged : List JudgedProposal)
    → Greatest (decisions judged) (resolution_of judged).decision
      ⊎ ((judged ≡ []) × ((resolution_of judged).decision ≡ PolicyDecision.auto_approve))
unfolding resolution_of aggregate
resolution_of-decision [] = inr (refl, refl)
resolution_of-decision (j ∷ js) = inl (max_decision-Greatest j.judgment.decision (decisions js))

decisions-mem :
    (j : JudgedProposal) (js : List JudgedProposal)
    → Memᴰ j js
    → Memᴰ j.judgment.decision (decisions js)
decisions-mem j [] mem = elim mem [ ]
decisions-mem j (k ∷ js) (Memᴰ.head same) = Memᴰ.head (ap (λ x. x.judgment.decision) same)
decisions-mem j (k ∷ js) (Memᴰ.tail mem) = Memᴰ.tail (decisions-mem j js mem)

least_severe : (d : PolicyDecision) → severity d ≤ 0 → d ≡ PolicyDecision.auto_approve
unfolding severity
least_severe PolicyDecision.auto_approve h = refl
least_severe PolicyDecision.user_approval h = absurd (omega (arith, h))
least_severe PolicyDecision.expert_required h = absurd (omega (arith, h))
least_severe PolicyDecision.auto_blocked h = absurd (omega (arith, h))

-- If the decision is to approve, each proposal was approved.
pub resolution_of-auto :
    (judged : List JudgedProposal) (j : JudgedProposal)
    → (resolution_of judged).decision ≡ PolicyDecision.auto_approve
    → Memᴰ j judged
    → j.judgment.decision ≡ PolicyDecision.auto_approve
unfolding severity
resolution_of-auto judged j auto mem = elim (resolution_of-decision judged) [
  | inl greatest ↦
      least_severe j.judgment.decision
        (rw auto at greatest.upper j.judgment.decision (decisions-mem j judged mem))
  | inr (none_judged, _) ↦ elim (rw none_judged at mem) [ ]
]
