-- ===== src/Product/Gates.antt =====
-- app/product/classifier.py: which gate a text meets, and how the gates of two texts compare.
use orchestration_system.Common.{
  ℕ, max, ◌≤◌, ◌≡◌, refl, ap, ◌∙◌, Bool, true, false, not, String, List, [], ◌∷◌, ◌&&◌, ◌||◌,
  &&-eq-true, all, any, filter, is_empty, if◌then◌else◌, Bool-cases, inl, inr, any_within, arith,
}
use orchestration_system.Enums.{ClassificationGate}
use orchestration_system.Product.Schemas.{ClassificationResult}
use orchestration_system.Product.Classifier.{BlockPolicy, occurs, contains_any, classify}

-- How far a gate stops a project.
abbrev pub gate_severity : ClassificationGate → ℕ
gate_severity ClassificationGate.proceed = 0
gate_severity ClassificationGate.needs_approval = 1
gate_severity ClassificationGate.needs_expert = 2
gate_severity ClassificationGate.unsupported = 3
gate_severity ClassificationGate.blocked = 4

-- The gates above `proceed`.
abbrev pub stops : List ClassificationGate
stops =
    ClassificationGate.needs_approval ∷ ClassificationGate.needs_expert
    ∷ ClassificationGate.unsupported ∷ ClassificationGate.blocked ∷ []

-- A keyword of the section for a gate is in the text.
abbrev pub calls_for : (String → String) → BlockPolicy → String → ClassificationGate → Bool
calls_for lower policy text ClassificationGate.proceed = true
calls_for lower policy text ClassificationGate.needs_approval =
    contains_any lower (lower text) policy.risky
calls_for lower policy text ClassificationGate.needs_expert =
    contains_any lower (lower text) policy.expert_review
calls_for lower policy text ClassificationGate.unsupported =
    contains_any lower (lower text) policy.unsupported
calls_for lower policy text ClassificationGate.blocked =
    any (λ rule. contains_any lower (lower text) rule.keywords) policy.prohibited

-- The severest of the gates that a test calls for.
abbrev pub highest : (ClassificationGate → Bool) → List ClassificationGate → ℕ
highest calls [] = 0
highest calls (g ∷ gs) = max (if calls g then gate_severity g else 0) (highest calls gs)

is_empty-filter {ℓ} :
    {A : Type ℓ} (p : A → Bool) (xs : List A) → not (is_empty (filter p xs)) ≡ any p xs
is_empty-filter p [] = refl
is_empty-filter p (x ∷ xs) = elim (Bool-cases (p x)) [
  | inl hit ↦ rw hit refl
  | inr miss ↦ rw miss (is_empty-filter p xs)
]

-- The gate as a function of the four tests.
abbrev gate_when : Bool → Bool → Bool → Bool → ClassificationGate
gate_when true unsupported expert risky = ClassificationGate.blocked
gate_when false true expert risky = ClassificationGate.unsupported
gate_when false false true risky = ClassificationGate.needs_expert
gate_when false false false true = ClassificationGate.needs_approval
gate_when false false false false = ClassificationGate.proceed

-- Its gate, by the four tests that `calls_for` names.
gate_by : (ClassificationGate → Bool) → ClassificationGate
gate_by calls =
    gate_when (calls ClassificationGate.blocked) (calls ClassificationGate.unsupported)
      (calls ClassificationGate.needs_expert) (calls ClassificationGate.needs_approval)

branch-gate {ℓ} :
    {A : Type ℓ} (gate : A → ClassificationGate) (b u e r : Bool) (x y z v w : A)
    → gate x ≡ ClassificationGate.blocked
    → gate y ≡ ClassificationGate.unsupported
    → gate z ≡ ClassificationGate.needs_expert
    → gate v ≡ ClassificationGate.needs_approval
    → gate w ≡ ClassificationGate.proceed
    → gate (if b then x else if u then y else if e then z else if r then v else w)
      ≡ gate_when b u e r
branch-gate gate true u e r x y z v w bx by be br bp = bx
branch-gate gate false true e r x y z v w bx by be br bp = by
branch-gate gate false false true r x y z v w bx by be br bp = be
branch-gate gate false false false true x y z v w bx by be br bp = br
branch-gate gate false false false false x y z v w bx by be br bp = bp

gate_when-alike :
    {b u e r b' u' e' r' : Bool}
    → b ≡ b'
    → u ≡ u'
    → e ≡ e'
    → r ≡ r'
    → gate_when b u e r ≡ gate_when b' u' e' r'
gate_when-alike eb eu ee er = rw (eb, eu, ee, er) refl

classify-by :
    (lower : String → String) (policy : BlockPolicy) (text : String)
    → (classify lower policy text).gate ≡ gate_by (calls_for lower policy text)
unfolding classify gate_by
classify-by lower policy text =
    branch-gate (λ (r : ClassificationResult). r.gate) _ _ _ _ _ _ _ _ _ refl refl refl refl refl
    ∙ gate_when-alike
        (is_empty-filter (λ rule. contains_any lower (lower text) rule.keywords) policy.prohibited)
        (is_empty-filter (occurs lower (lower text)) policy.unsupported)
        (is_empty-filter (occurs lower (lower text)) policy.expert_review)
        (is_empty-filter (occurs lower (lower text)) policy.risky)

gate_severity-when :
    (b u e r : Bool)
    → gate_severity (gate_when b u e r)
      ≡ max
          (if r then 1 else 0)
          (max (if e then 2 else 0) (max (if u then 3 else 0) (max (if b then 4 else 0) 0)))
gate_severity-when b u e r = ground arith

highest_mono :
    (calls louder : ClassificationGate → Bool) (gs : List ClassificationGate)
    → ((g : ClassificationGate) → calls g ≡ true → louder g ≡ true)
    → highest calls gs ≤ highest louder gs
highest_mono calls louder [] more = omega arith
highest_mono calls louder (g ∷ gs) more =
    let rest = highest_mono calls louder gs more in
    elim (Bool-cases (calls g)) [
      | inl hit ↦ rw (hit, more g hit) (omega arith)
      | inr miss ↦ rw miss (omega arith)
    ]

-- A keyword that is in the first text is in the second.
abbrev pub carries : (String → String) → String → String → String → Bool
carries lower text longer kw = not (occurs lower (lower text) kw) || occurs lower (lower longer) kw

-- So it is for every keyword of the policy.
abbrev pub carries_all : (String → String) → BlockPolicy → String → String → Bool
carries_all lower policy text longer =
    all (carries lower text longer) policy.risky
    && (all (carries lower text longer) policy.expert_review
        && (all (carries lower text longer) policy.unsupported
            && all (λ rule. all (carries lower text longer) rule.keywords) policy.prohibited))

contains_any_mono :
    (lower : String → String) (text longer : String) (keywords : List String)
    → all (carries lower text longer) keywords ≡ true
    → contains_any lower (lower text) keywords ≡ true
    → contains_any lower (lower longer) keywords ≡ true
contains_any_mono lower text longer keywords =
    any_within (carries lower text longer) _ _ keywords (λ kw within hit. rw hit at within)

calls_for_each :
    (lower : String → String) (policy : BlockPolicy) (text longer : String)
    → all (carries lower text longer) policy.risky ≡ true
    → all (carries lower text longer) policy.expert_review ≡ true
    → all (carries lower text longer) policy.unsupported ≡ true
    → all (λ rule. all (carries lower text longer) rule.keywords) policy.prohibited ≡ true
    → (g : ClassificationGate) → calls_for lower policy text g ≡ true
    → calls_for lower policy longer g ≡ true
calls_for_each lower policy text longer r e u b ClassificationGate.proceed h = refl
calls_for_each lower policy text longer r e u b ClassificationGate.needs_approval h =
    contains_any_mono lower text longer policy.risky r h
calls_for_each lower policy text longer r e u b ClassificationGate.needs_expert h =
    contains_any_mono lower text longer policy.expert_review e h
calls_for_each lower policy text longer r e u b ClassificationGate.unsupported h =
    contains_any_mono lower text longer policy.unsupported u h
calls_for_each lower policy text longer r e u b ClassificationGate.blocked h =
    any_within (λ rule. all (carries lower text longer) rule.keywords) _ _ policy.prohibited
      (λ rule. contains_any_mono lower text longer rule.keywords) b h

calls_for_mono :
    (lower : String → String) (policy : BlockPolicy) (text longer : String)
    → carries_all lower policy text longer ≡ true
    → (g : ClassificationGate) → calls_for lower policy text g ≡ true
    → calls_for lower policy longer g ≡ true
calls_for_mono lower policy text longer more g h =
    let r = &&-eq-true {a = all (carries lower text longer) policy.risky} more in
    let e = &&-eq-true {a = all (carries lower text longer) policy.expert_review} r.1 in
    let u = &&-eq-true {a = all (carries lower text longer) policy.unsupported} e.1 in
    calls_for_each lower policy text longer r.0 e.0 u.0 u.1 g h

-- Whatever the policy and the casing, the gate of a text is the severest of those whose section of the
-- policy has a keyword in the text, and `proceed` where no section has one: the severities, from 0 for
-- `proceed` to 4 for `blocked`, agree.
pub classify-highest :
    (lower : String → String) (policy : BlockPolicy) (text : String)
    → gate_severity (classify lower policy text).gate ≡ highest (calls_for lower policy text) stops
unfolding gate_by
classify-highest lower policy text =
    ap gate_severity (classify-by lower policy text) ∙ gate_severity-when _ _ _ _

-- A text that has every keyword of the policy that another text has meets a gate that is at least as
-- severe, whatever the policy and the casing.
pub classify-grows :
    (lower : String → String) (policy : BlockPolicy) (text longer : String)
    → carries_all lower policy text longer ≡ true
    → gate_severity (classify lower policy text).gate
      ≤ gate_severity (classify lower policy longer).gate
classify-grows lower policy text longer more =
    rw (classify-highest lower policy text, classify-highest lower policy longer)
      (highest_mono _ _ stops (calls_for_mono lower policy text longer more))
