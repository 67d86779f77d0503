-- ===== src/Chunker/Patterns.antt =====
-- `extractVariables` and `hasCallToAction` of
-- src/vector-db/services/text-processing/text-chunker.service.ts. None of the patterns lets a search
-- backtrack: what ends a run is not in the run.
use high_throughput_notifica.Chunker.CodeUnits.{Text, ascii, contains, strip_prefix, text_eq, trim}
use high_throughput_notifica.Prelude.{
  Bool, List, Option, String, [], any, false, if◌then◌else◌, leb, length, map, none, not, some, suc,
  true, zero, ℕ, ◌&&◌, ◌++◌, ◌+◌, ◌==◌, ◌||◌, ◌∷◌,
}

abbrev pub is_letter : ℕ → Bool
is_letter c = (leb b'a' c && leb c b'z') || (leb b'A' c && leb c b'Z') || c == b'_'

-- `\w`
abbrev pub is_word : ℕ → Bool
is_word c = is_letter c || (leb b'0' c && leb c b'9')

-- The longest beginning of units that the test holds for, and the rest.
unfoldable pub span : (ℕ → Bool) → Text → Text × Text
span p [] = ([], [])
span p (c ∷ s) = let (run, rest) = span p s in if p c then (c ∷ run, rest) else ([], c ∷ s)

-- A pattern: an opening text, one or more units of a class, of which the first may be restricted,
-- and a closing text.
pub record Pattern : Type 0 where
  pub opening : Text
  pub first : ℕ → Bool
  pub inner : ℕ → Bool
  pub closing : Text

abbrev not_brace : ℕ → Bool
not_brace c = not (c == b'}')

abbrev any_first : ℕ → Bool
any_first c = true

abbrev pub patterns : List Pattern
patterns =
    record { opening = ascii "{{"; first = any_first; inner = not_brace; closing = ascii "}}" }
    ∷ record { opening = ascii "{"; first = is_letter; inner = is_word; closing = ascii "}" }
    ∷ record { opening = ascii "${"; first = any_first; inner = not_brace; closing = ascii "}" }
    ∷ record { opening = ascii "%"; first = is_letter; inner = is_word; closing = ascii "%" }
    ∷ []

abbrev starts : (ℕ → Bool) → Text → Bool
starts p [] = false
starts p (c ∷ s) = p c

abbrev finished : Pattern → Text × Text → Option (Text × Text)
finished p (run, rest) =
    if starts p.first run
    then elim (strip_prefix p.closing rest) [ none ↦ none | some after ↦ some (run, after) ]
    else none

-- A match at the beginning of the text: the group, and what follows the match.
unfoldable pub match_here : Pattern → Text → Option (Text × Text)
unfolding strip_prefix span
match_here p s = elim (strip_prefix p.opening s) [
  | none ↦ none
  | some body ↦ finished p (span p.inner body)
]

-- The groups of all matches, `match[1]` of each `pattern.exec(content)`. A round goes on one unit
-- at least.
unfoldable pub captures : ℕ → Pattern → Text → List Text
unfolding match_here
captures zero p s = []
captures (suc n) p [] = []
captures (suc n) p (c ∷ s) = elim (match_here p (c ∷ s)) [
  | none ↦ captures n p s
  | some (run, after) ↦ run ∷ captures n p after
]

abbrev known : List Text → Text → Bool
known ts t = any (text_eq t) ts

-- `variables.add(group.trim())` for each group.
unfoldable pub add_trimmed : List Text → List Text → List Text
unfolding trim
add_trimmed found [] = found
add_trimmed found (t ∷ ts) =
    add_trimmed (if known found (trim t) then found else found ++ trim t ∷ []) ts

unfoldable pub add_captures : Text → List Text → List Pattern → List Text
unfolding captures add_trimmed
add_captures s found [] = found
add_captures s found (p ∷ ps) = add_captures s (add_trimmed found (captures (length s) p s)) ps

unfoldable pub extract_variables : Text → List Text
unfolding add_captures
extract_variables s = add_captures s [] patterns

-- The flag `i`, for a pattern of ASCII letters.
abbrev lower : ℕ → ℕ
lower c = if leb b'A' c && leb c b'Z' then c + 32 else c

-- A pattern of `ctaPatterns` without `\w+`.
unfoldable pub mentions : String → Text → Bool
unfolding contains
mentions part s = contains (ascii part) (map lower s)

abbrev word_follows : Option Text → Bool
word_follows none = false
word_follows (some rest) = starts is_word rest

-- A pattern of `ctaPatterns` that ends in `\w+`.
unfoldable pub mentions_word : Text → Text → Bool
unfolding strip_prefix
mentions_word part [] = false
mentions_word part (c ∷ s) = word_follows (strip_prefix part (c ∷ s)) || mentions_word part s

unfoldable pub has_call_to_action : Text → Bool
unfolding mentions mentions_word
has_call_to_action s =
    any (λ part. mentions part s)
      ("click here" ∷ "learn more" ∷ "get started" ∷ "sign up" ∷ "subscribe" ∷ "buy now"
        ∷ "shop now" ∷ "download" ∷ [])
    || mentions_word (ascii "view ") (map lower s)
    || mentions_word (ascii "visit ") (map lower s)
