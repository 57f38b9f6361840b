-- ===== src/Product/Backlogs.antt =====
-- What a specification's backlog holds of the requirements (app/product/specification_agent.py).
use orchestration_system.Common.{
  ℕ, suc, ◌+◌, String, ◌≡◌, refl, ◌∙◌, Bool, List, [], ◌∷◌, filter, count, arith,
}
use orchestration_system.Enums.{RequirementCategory}
use orchestration_system.Product.Schemas.{
  RequirementDraft, BacklogTask, UserStory, Epic, SpecificationInput,
}
use orchestration_system.Product.SpecificationAgent.{
  epic_titles, in_category, task_title, story_of, stories_from, epics_from, build_epics, generate,
}

-- the number of tasks with a title that passes a test
module _ (p : String → Bool) where
  abbrev titled : BacklogTask → Bool
  titled t = p t.title

  abbrev in_stories : List UserStory → ℕ
  in_stories [] = 0
  in_stories (s ∷ stories) = count titled s.tasks + in_stories stories

  abbrev pub in_epics : List Epic → ℕ
  in_epics [] = 0
  in_epics (e ∷ epics) = in_stories e.stories + in_epics epics

  -- and of requirements whose task would have one
  abbrev pub wanted : RequirementDraft → Bool
  wanted r = p (task_title r)

  in_stories-from :
      (epic_no index : ℕ) (members : List RequirementDraft)
      → in_stories (stories_from epic_no index members) ≡ count wanted members
  unfolding stories_from story_of
  in_stories-from epic_no index [] = refl
  in_stories-from epic_no index (r ∷ members) =
      ground (arith, in_stories-from epic_no (suc index) members)

  -- the requirements of the categories of some titles
  abbrev in_titles : List (RequirementCategory × String) → List RequirementDraft → ℕ
  in_titles [] requirements = 0
  in_titles ((category, title) ∷ titles) requirements =
      count wanted (filter (in_category category) requirements) + in_titles titles requirements

  in_epics-from :
      (epic_no : ℕ) (titles : List (RequirementCategory × String))
      (requirements : List RequirementDraft)
      → in_epics (epics_from epic_no titles requirements) ≡ in_titles titles requirements
  unfolding epics_from
  in_epics-from epic_no [] requirements = refl
  in_epics-from epic_no ((category, title) ∷ titles) requirements =
      by_members (λ n. in_epics-from n titles requirements)
        (filter (in_category category) requirements) refl
    where
      by_members :
          ((n : ℕ) → in_epics (epics_from n titles requirements) ≡ in_titles titles requirements)
          → (members : List RequirementDraft) → filter (in_category category) requirements ≡ members
          → in_epics (epics_from epic_no ((category, title) ∷ titles) requirements)
            ≡ in_titles ((category, title) ∷ titles) requirements
      by_members rest [] same = rw same (ground (arith, rest epic_no))
      by_members rest (r ∷ members) same =
          rw same
            (ground (arith, in_stories-from (suc epic_no) 1 (r ∷ members), rest (suc epic_no)))

  in_titles-all :
      (requirements : List RequirementDraft)
      → in_titles epic_titles requirements ≡ count wanted requirements
  unfolding epic_titles
  in_titles-all [] = refl
  in_titles-all (r ∷ requirements) = by_category (in_titles-all requirements) r.category refl
    where
      by_category :
          in_titles epic_titles requirements ≡ count wanted requirements
          → (c : RequirementCategory) → r.category ≡ c
          → in_titles epic_titles (r ∷ requirements) ≡ count wanted (r ∷ requirements)
      by_category rest RequirementCategory.functional same = rw same (ground (arith, rest))
      by_category rest RequirementCategory.non_functional same = rw same (ground (arith, rest))
      by_category rest RequirementCategory.business_rule same = rw same (ground (arith, rest))
      by_category rest RequirementCategory.exception_case same = rw same (ground (arith, rest))

  -- The backlog of a specification loses no requirement and invents none: for every test of titles, as
  -- many of its development tasks pass as there are requirements whose task's title passes.
  pub generate-tasks :
      (input : SpecificationInput)
      → in_epics (generate input).epics ≡ count wanted input.requirements
  unfolding generate build_epics
  generate-tasks input =
      in_epics-from 0 epic_titles input.requirements ∙ in_titles-all input.requirements
