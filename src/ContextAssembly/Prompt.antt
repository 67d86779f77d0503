-- ===== src/ContextAssembly/Prompt.antt =====
-- `assemblePrompt` of src/vector-db/services/context-assembly.service.ts.
use high_throughput_notifica.ContextAssembly.{or_text, Option, Runtime}
use high_throughput_notifica.ContextAssembly.{Result}
use high_throughput_notifica.Prelude.{
  List, String, [], concat, decimal, if◌then◌else◌, join, length, ltb, ℕ, ◌++◌, ◌+◌, ◌∷◌,
}

module _ (runtime : Runtime) where
  open runtime use {to_fixed_2}

  -- `## Template ...` and what follows it, up to the line of dashes; the index counts from 0.
  abbrev template_lines : ℕ → Result runtime → List String
  template_lines index r =
      (concat "## Template "
          (concat (decimal (index + 1)) (concat " (Score: " (concat (to_fixed_2 r.score) ")")))
        ∷ concat "**Channel:** " r.payload.channel
        ∷ concat "**Category:** " r.payload.category
        ∷ concat "**Tone:** " r.payload.tone
        ∷ concat "**Language:** " r.payload.language
        ∷ [])
      ++ (if ltb 0 (length r.payload.tags)
          then concat "**Tags:** " (join ", " r.payload.tags) ∷ []
          else [])
      ++ ("" ∷ "**Content:**" ∷ r.payload.content ∷ "" ∷ "---" ∷ "" ∷ [])

  unfoldable pub template_sections : ℕ → List (Result runtime) → List String
  template_sections index [] = []
  template_sections index (r ∷ rs) = template_lines index r ++ template_sections (index + 1) rs

  abbrev context_lines : List (Result runtime) → List String
  context_lines [] = []
  context_lines (r ∷ rs) =
      ("# Template Examples" ∷ ""
        ∷ "Here are some relevant notification templates to guide your response:" ∷ "" ∷ [])
      ++ template_sections 0 (r ∷ rs)

  abbrev default_prompt : String
  default_prompt = concat "You are a helpful notification generation assistant. " (
      concat "Use the provided template examples to generate a notification "
        "that matches the user's requirements.")

  unfoldable pub assemble_prompt : String → List (Result runtime) → Option String → String
  unfolding template_sections
  assemble_prompt user_query context system_prompt = join "\n" (
      (or_text system_prompt default_prompt ∷ "" ∷ [])
      ++ context_lines context
      ++ ("# User Request" ∷ "" ∷ user_query ∷ []))
