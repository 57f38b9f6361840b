-- ===== src/Product/Backlog.antt =====
-- app/product/backlog_generator.py.
use Prim.Native.String.{◌++◌}
use mathlib.Core.List.{◌++◌ as append}
use orchestration_system.Common.{String, List, [], ◌∷◌, map, join}
use orchestration_system.Product.Schemas.{BacklogTask, UserStory, Epic, SpecificationResult}

task_line : BacklogTask → String
task_line t = "  - [ ] `" ++ t.key ++ "` " ++ t.title ++ " — " ++ t.description

story_lines : List UserStory → List String
unfolding task_line
story_lines [] = []
story_lines (s ∷ stories) =
    ("- **" ++ s.key ++ "** " ++ s.title) ∷ append (map task_line s.tasks) (story_lines stories)

-- The loop over the epics
unfoldable pub epic_lines : List Epic → List String
unfolding story_lines
epic_lines [] = []
epic_lines (e ∷ epics) =
    ("## " ++ e.key ++ " " ++ e.title) ∷ append (story_lines e.stories) ("" ∷ epic_lines epics)

-- `render_backlog_markdown`
unfoldable pub render_backlog_markdown : String → SpecificationResult → String
unfolding epic_lines
render_backlog_markdown project_name spec =
    join "\n" (
      append (("# Backlog — " ++ project_name) ∷ "" ∷ epic_lines spec.epics)
        ("## 테스트 시나리오" ∷ map (λ s. "- " ++ s) spec.test_scenarios))
    ++ "\n"
