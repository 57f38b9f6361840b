-- ===== src/Consultation/Disclosure.antt =====
-- What a package discloses of the context that it is made of: the masked texts, and no more.
use orchestration_system.Common.{◌≡◌, refl, ap, ◌∙◌, sym, String, List, [], ◌∷◌, map}
use orchestration_system.Database.{SerializedQuestion}
use orchestration_system.Consultation.Masking.{
  Patterns, Findings, mask_secrets, merge, mask_and_merge,
}
use orchestration_system.Consultation.Package.{
  ConsultationOption, ConsultationQuestion, ConsultationContext, Masked, pure, ◌>>=◌, MaskedTexts,
  render, m, mask_options, mask_questions, mask_all, mask_context, build_package,
}

-- a text after masking, with what was found in it
abbrev Seen : Type 0
Seen = String × Findings

abbrev SeenQuestion : Type 0
SeenQuestion = String × Seen × List (Seen × Seen)

-- All texts of a context after masking; the keys of questions are not masked.
pub record SeenContext : Type 0 where
  pub project_name : Seen
  pub questions : List SeenQuestion
  pub situation_summary : Seen
  pub why_expert_needed : Seen
  pub attempts : List Seen
  pub project_overview : Seen
  pub requirements_summary : Seen
  pub failure_point : Seen
  pub config_summary : Seen
  pub diff_summary : Seen
  pub environment : Seen

module _ (patterns : Patterns) where
  abbrev see : String → Seen
  see text = mask_secrets patterns text

  abbrev see_option : ConsultationOption → Seen × Seen
  see_option o = (see o.label, see o.action)

  abbrev see_question : ConsultationQuestion → SeenQuestion
  see_question q = (q.key, see q.question, map see_option q.options)

  abbrev pub see_context : ConsultationContext → SeenContext
  see_context ctx = record {
    project_name = see ctx.project_name;
    questions = map see_question ctx.key_questions;
    situation_summary = see ctx.situation_summary;
    why_expert_needed = see ctx.why_expert_needed;
    attempts = map see ctx.attempts;
    project_overview = see ctx.project_overview;
    requirements_summary = see ctx.requirements_summary;
    failure_point = see ctx.failure_point;
    config_summary = see ctx.config_summary;
    diff_summary = see ctx.diff_summary;
    environment = see ctx.environment;
  }

-- The same masking, of texts that were seen before
abbrev keep : Seen → Masked String
keep (text, found) findings = (text, merge found findings)

abbrev keep_options : List (Seen × Seen) → Masked (List (String × String))
keep_options [] = pure []
keep_options ((l, a) ∷ options) = do
  label ← keep l
  action ← keep a
  rest ← keep_options options
  pure ((label, action) ∷ rest)

abbrev keep_questions : List SeenQuestion → Masked (List SerializedQuestion)
keep_questions [] = pure []
keep_questions ((key, q, o) ∷ questions) = do
  text ← keep q
  options ← keep_options o
  rest ← keep_questions questions
  pure (record { key = key; question = text; options = options } ∷ rest)

abbrev keep_all : List Seen → Masked (List String)
keep_all [] = pure []
keep_all (t ∷ texts) = do masked ← keep t; rest ← keep_all texts; pure (masked ∷ rest)

abbrev keep_context : SeenContext → Masked MaskedTexts
keep_context s = do
  project_name ← keep s.project_name
  questions ← keep_questions s.questions
  situation_summary ← keep s.situation_summary
  why_expert_needed ← keep s.why_expert_needed
  attempts ← keep_all s.attempts
  project_overview ← keep s.project_overview
  requirements_summary ← keep s.requirements_summary
  failure_point ← keep s.failure_point
  config_summary ← keep s.config_summary
  diff_summary ← keep s.diff_summary
  environment ← keep s.environment
  pure (record {
    project_name = project_name;
    questions = questions;
    situation_summary = situation_summary;
    why_expert_needed = why_expert_needed;
    attempts = attempts;
    project_overview = project_overview;
    requirements_summary = requirements_summary;
    failure_point = failure_point;
    config_summary = config_summary;
    diff_summary = diff_summary;
    environment = environment;
  })

module _ (patterns : Patterns) where
  m-keep : (text : String) (f : Findings) → m patterns text f ≡ keep (see patterns text) f
  unfolding m mask_and_merge
  m-keep text f = refl

  mask_options-keep :
      (options : List ConsultationOption) (f : Findings)
      → mask_options patterns options f ≡ keep_options (map (see_option patterns) options) f
  unfolding mask_options m mask_and_merge
  mask_options-keep [] f = refl
  mask_options-keep (o ∷ options) f = rw (mask_options-keep options) refl

  mask_questions-keep :
      (questions : List ConsultationQuestion) (f : Findings)
      → mask_questions patterns questions f
        ≡ keep_questions (map (see_question patterns) questions) f
  unfolding mask_questions m mask_and_merge
  mask_questions-keep [] f = refl
  mask_questions-keep (q ∷ questions) f =
      rw (mask_options-keep q.options, mask_questions-keep questions) refl

  mask_all-keep :
      (texts : List String) (f : Findings)
      → mask_all patterns texts f ≡ keep_all (map (see patterns) texts) f
  unfolding mask_all m mask_and_merge
  mask_all-keep [] f = refl
  mask_all-keep (t ∷ texts) f = rw (mask_all-keep texts) refl

  mask_context-keep :
      (ctx : ConsultationContext) (f : Findings)
      → mask_context patterns ctx f ≡ keep_context (see_context patterns ctx) f
  unfolding mask_context m mask_and_merge
  mask_context-keep ctx f =
      rw (mask_questions-keep ctx.key_questions, mask_all-keep ctx.attempts) refl

  -- Two contexts whose texts are equal after masking, with the same findings in each text, make the
  -- same package: title, both layers, questions and summary of the masking. What masking hides of a
  -- context cannot be told from the package, whatever the patterns match.
  pub build_package-hides :
      (a b : ConsultationContext)
      → see_context patterns a ≡ see_context patterns b
      → build_package patterns a ≡ build_package patterns b
  unfolding build_package
  build_package-hides a b same =
      ap (λ t. render t.0 t.1)
        (mask_context-keep a [] ∙ ap (λ s. keep_context s []) same ∙ sym (mask_context-keep b []))
