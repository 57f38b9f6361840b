-- ===== src/Capabilities/Best.antt =====
-- The provider that the matcher picks: the reuse of what comes first by priority, then by type.
use mathlib.Core.List.{Memᴰ}
use mathlib.Core.Bool.{false≢true}
use mathlib.Core.Path.{subst}
use mathlib.Core.Option.{some-injective}
use orchestration_system.Common.{
  String, Bool, true, false, ◌&&◌, ◌||◌, ◌≡◌, refl, sym, ◌∙◌, ap, some, List, [], ◌∷◌, filter, ltb,
  leb, ◌==◌, Bool-cases, Option-cases, inl, inr, arith, any, is_some, none-ne, or-true_right,
}
use orchestration_system.Database.{Db, CapabilityProvider}
use orchestration_system.Capabilities.Schemas.{MatchedProvider}
use orchestration_system.Capabilities.Providers.{least-is_some}
use orchestration_system.Capabilities.Matcher.{type_rank, key_less, least, provides, match_one}

-- p comes before q or beside it by priority, then by type: agent, MCP server, library
unfoldable pub precedes : CapabilityProvider → CapabilityProvider → Bool
precedes p q =
    ltb p.priority q.priority
    || (p.priority == q.priority && leb (type_rank p.provider_type) (type_rank q.provider_type))

key_less-precedes : (p q : CapabilityProvider) → key_less p q ≡ true → precedes p q ≡ true
unfolding key_less precedes
key_less-precedes p q h = ground (arith, h)

not_less-precedes : (p q : CapabilityProvider) → key_less p q ≡ false → precedes q p ≡ true
unfolding key_less precedes
not_less-precedes p q h = ground (arith, h)

precedes_trans :
    (p q r : CapabilityProvider) → precedes p q ≡ true → precedes q r ≡ true → precedes p r ≡ true
unfolding precedes
precedes_trans p q r h k = ground (arith, h, k)

precedes_self : (p : CapabilityProvider) → precedes p p ≡ true
unfolding precedes
precedes_self p = ground arith

-- `best` is one of the providers that pass the test, and precedes each of them.
pub record IsBest (test : CapabilityProvider → Bool) (providers : List CapabilityProvider)
    (best : CapabilityProvider) : Type 0 where
  pub member : Memᴰ best providers
  pub passes : test best ≡ true
  pub first : (q : CapabilityProvider) → Memᴰ q providers → test q ≡ true → precedes best q ≡ true

any_mem :
    (test : CapabilityProvider → Bool) (q : CapabilityProvider) (ps : List CapabilityProvider)
    → Memᴰ q ps
    → test q ≡ true
    → any test ps ≡ true
any_mem test q [] mem h = elim mem [ ]
any_mem test q (p ∷ ps) (Memᴰ.head same) h = rw (ap test (sym same) ∙ h) refl
any_mem test q (p ∷ ps) (Memᴰ.tail mem) h = or-true_right (test p) (any_mem test q ps mem h)

module _ (test : CapabilityProvider → Bool) (p : CapabilityProvider)
    (ps : List CapabilityProvider) where
  -- p and the rest, if p precedes what precedes the rest
  IsBest-head :
      test p ≡ true
      → ((q : CapabilityProvider) → Memᴰ q ps → test q ≡ true → precedes p q ≡ true)
      → IsBest test (p ∷ ps) p
  IsBest-head passes first = record { member = Memᴰ.head refl; passes = passes; first = before }
    where
      before : (q : CapabilityProvider) → Memᴰ q (p ∷ ps) → test q ≡ true → precedes p q ≡ true
      before q (Memᴰ.head same) h = rw same (precedes_self p)
      before q (Memᴰ.tail mem) h = first q mem h

  IsBest-tail :
      (best : CapabilityProvider)
      → (test p ≡ true → precedes best p ≡ true)
      → IsBest test ps best
      → IsBest test (p ∷ ps) best
  IsBest-tail best over rest = record {
    member = Memᴰ.tail rest.member;
    passes = rest.passes;
    first = before;
  }
    where
      before : (q : CapabilityProvider) → Memᴰ q (p ∷ ps) → test q ≡ true → precedes best q ≡ true
      before q (Memᴰ.head same) h = rw same (over (ap test (sym same) ∙ h))
      before q (Memᴰ.tail mem) h = rest.first q mem h

least-IsBest :
    (test : CapabilityProvider → Bool) (ps : List CapabilityProvider) (best : CapabilityProvider)
    → least key_less (filter test ps) ≡ some best
    → IsBest test ps best
unfolding least
least-IsBest test [] best h = cc
least-IsBest test (p ∷ ps) best h = elim (Bool-cases (test p)) [
  | inr skip ↦
      IsBest-tail test p ps best (λ passes. absurd (false≢true (sym skip ∙ passes)))
        (least-IsBest test ps best (rw skip at h))
  | inl hit ↦ elim (Option-cases (least key_less (filter test ps))) [
    | inl nothing ↦
        subst (IsBest test (p ∷ ps)) (some-injective p best (rw (hit, least, nothing) at h)) (
          IsBest-head test p ps hit (λ q mem passes. absurd (
            false≢true (
              ap is_some (sym nothing)
              ∙ least-is_some key_less test ps
              ∙ any_mem test q ps mem passes))))
    | inr (y, found) ↦ elim (Bool-cases (key_less y p)) [
      | inl less ↦
          subst (IsBest test (p ∷ ps)) (some-injective y best (rw (hit, least, found, less) at h)) (
            IsBest-tail test p ps y (λ _. key_less-precedes y p less)
              (least-IsBest test ps y found))
      | inr beside ↦
          subst (IsBest test (p ∷ ps)) (some-injective p best (rw (hit, least, found, beside) at h))
            (IsBest-head test p ps hit (λ q mem passes.
              precedes_trans p y q (not_less-precedes y p beside)
                ((least-IsBest test ps y found).first q mem passes)))
    ]
  ]
]

-- What the matcher gives for a capability names a provider that is available for it, and which
-- precedes every other such provider by priority, then by type.
pub match_one-IsBest :
    (db : Db) (name : String) (m : MatchedProvider)
    → match_one db name ≡ some m
    → (p : CapabilityProvider) × IsBest (provides db.capabilities name) db.providers p
      × (m.capability ≡ name)
      × (m.provider_name ≡ p.provider_name)
      × (m.provider_type ≡ p.provider_type)
unfolding match_one
match_one-IsBest db name m h =
    elim (Option-cases (least key_less (filter (provides db.capabilities name) db.providers))) [
      | inl nothing ↦ absurd (none-ne (rw (nothing, match_one) at h))
      | inr (p, found) ↦
          let same = sym (some-injective _ m (rw (found, match_one) at h)) in
          (
            p,
            least-IsBest (provides db.capabilities name) db.providers p found,
            ap (λ x. x.capability) same,
            ap (λ x. x.provider_name) same,
            ap (λ x. x.provider_type) same,
          )
    ]
