-- ===== src/Chunker/CodeUnits.antt =====
-- Texts as the lists of their UTF-16 code units, and what
-- src/vector-db/services/text-processing/text-chunker.service.ts does with them: trim(), split(),
-- substring(), the replacement at the ends of sentences, and the estimate of the tokens.
use Prim.Native.Char.{code}
use high_throughput_notifica.Prelude.{
  take, Bool, List, Option, String, [], drop, false, if◌then◌else◌, leb, length, none, not, some,
  suc, true, zero, ℕ, ◌&&◌, ◌++◌, ◌+◌, ◌-◌, ◌/◌, ◌==◌, ◌||◌, ◌∷◌,
}

abbrev pub Text : Type 0
Text = List ℕ

-- The code units of an ASCII literal.
abbrev pub ascii : String → Text
ascii String.[] = []
ascii (String.◌∷◌ c s) = code c ∷ ascii s

abbrev pub text_eq : Text → Text → Bool
text_eq [] [] = true
text_eq [] (d ∷ t) = false
text_eq (c ∷ s) [] = false
text_eq (c ∷ s) (d ∷ t) = (c == d) && text_eq s t

abbrev pub is_empty : Text → Bool
is_empty [] = true
is_empty (c ∷ s) = false

-- `\s`, which is also what trim() takes away.
unfoldable pub is_space : ℕ → Bool
is_space c =
    (leb 9 c && leb c 13)
    || c == 32
    || c == 160
    || c == 5760
    || (leb 8192 c && leb c 8202)
    || c == 8232
    || c == 8233
    || c == 8239
    || c == 8287
    || c == 12288
    || c == 65279

unfoldable pub trim_start : Text → Text
unfolding is_space
trim_start [] = []
trim_start (c ∷ s) = let rest = trim_start s in if is_space c then rest else c ∷ s

unfoldable pub trim_end : Text → Text
unfolding is_space
trim_end [] = []
trim_end (c ∷ s) = let rest = trim_end s in if is_empty rest && is_space c then [] else c ∷ rest

unfoldable pub trim : Text → Text
unfolding trim_start trim_end
trim s = trim_end (trim_start s)

-- `text.substring(start, end)` for a start that is not after the end.
unfoldable pub substring : ℕ → ℕ → Text → Text
unfolding take drop
substring start end s = take (end - start) (drop start s)

-- Whether the text begins with the prefix, and what follows it.
unfoldable pub strip_prefix : Text → Text → Option Text
strip_prefix [] s = some s
strip_prefix (p ∷ ps) [] = none
strip_prefix (p ∷ ps) (c ∷ s) = let rest = strip_prefix ps s in if p == c then rest else none

abbrev pub is_some {ℓ} : {A : Type ℓ} → Option A → Bool
is_some none = false
is_some (some a) = true

-- `text.includes(part)`
unfoldable pub contains : Text → Text → Bool
unfolding strip_prefix
contains part [] = is_empty part
contains part (c ∷ s) = is_some (strip_prefix part (c ∷ s)) || contains part s

-- `parts.join(separator)`
unfoldable pub join_units : Text → List Text → Text
join_units separator [] = []
join_units separator (p ∷ []) = p
join_units separator (p ∷ q ∷ ps) = p ++ separator ++ join_units separator (q ∷ ps)

-- `text.split('|')`, where `current` has been read of the part.
unfoldable pub split_bars : Text → Text → List Text
split_bars current [] = current ∷ []
split_bars current (c ∷ s) =
    let closed = current ∷ split_bars [] s in
    let longer = split_bars (current ++ c ∷ []) s in if c == b'|' then closed else longer

-- Where a replacement of `/([.!?])\s+/g` by `$1|` stands: after a mark, in the space after one, or
-- elsewhere.
pub data Place : Type 0 where
  after_mark in_gap elsewhere : Place

abbrev pub is_mark : ℕ → Bool
is_mark c = c == b'.' || c == b'!' || c == b'?'

-- What a code unit becomes, and where the replacement stands then.
unfoldable pub replaced : Place → ℕ → Text × Place
unfolding is_space
replaced after_mark c =
    if is_space c
    then (b'|' ∷ [], in_gap)
    else (c ∷ [], if is_mark c then after_mark else elsewhere)
replaced in_gap c =
    if is_space c then ([], in_gap) else (c ∷ [], if is_mark c then after_mark else elsewhere)
replaced elsewhere c = (c ∷ [], if is_mark c then after_mark else elsewhere)

unfoldable pub mark_sentences : Place → Text → Text
unfolding replaced
mark_sentences place [] = []
mark_sentences place (c ∷ s) = let (out, next) = replaced place c in out ++ mark_sentences next s

-- `texts.map(s => s.trim()).filter(s => s.length > 0)`
unfoldable pub trimmed_parts : List Text → List Text
unfolding trim
trimmed_parts [] = []
trimmed_parts (t ∷ ts) =
    let rest = trimmed_parts ts in if is_empty (trim t) then rest else trim t ∷ rest

unfoldable pub split_into_sentences : Text → List Text
unfolding split_bars mark_sentences trimmed_parts
split_into_sentences s = trimmed_parts (split_bars [] (mark_sentences elsewhere s))

-- `text.split(/\n\n+/)`: `breaks` newlines have been read after `current`.
unfoldable pub split_blocks : Text → ℕ → Text → List Text
split_blocks current zero [] = current ∷ []
split_blocks current (suc zero) [] = (current ++ 10 ∷ []) ∷ []
split_blocks current (suc (suc n)) [] = current ∷ [] ∷ []
split_blocks current breaks (c ∷ s) =
    let further = split_blocks current (breaks + 1) s in
    let next = split_blocks (c ∷ []) 0 s in
    let same = split_blocks (current ++ (if breaks == 1 then 10 ∷ c ∷ [] else c ∷ [])) 0 s in
    if c == 10 then further else if leb 2 breaks then current ∷ next else same

-- `blocks.filter(p => p.trim().length > 0)`
unfoldable pub non_blank : List Text → List Text
unfolding trim
non_blank [] = []
non_blank (t ∷ ts) = let rest = non_blank ts in if is_empty (trim t) then rest else t ∷ rest

unfoldable pub split_into_paragraphs : Text → List Text
unfolding split_blocks non_blank
split_into_paragraphs s = non_blank (split_blocks [] 0 s)

-- The maximal runs without white space: `text.split(/\s+/)` less its empty parts.
unfoldable pub count_words : Bool → Text → ℕ
unfolding is_space
count_words inside [] = 0
count_words inside (c ∷ s) =
    let rest = count_words (not (is_space c)) s in
    if not inside && not (is_space c) then suc rest else rest

pub record TokenEstimate : Type 0 where
  pub tokens : ℕ
  pub characters : ℕ
  pub words : ℕ
  pub sentences : ℕ
  pub paragraphs : ℕ

-- `Math.ceil(characters / 4)`, which is exact.
unfoldable pub tokens_in : Text → ℕ
tokens_in s = (length s + 3) / 4

unfoldable pub estimate_tokens : Text → TokenEstimate
unfolding tokens_in count_words split_into_sentences split_into_paragraphs
estimate_tokens s = record {
  tokens = tokens_in s;
  characters = length s;
  words = count_words false s;
  sentences = length (split_into_sentences s);
  paragraphs = length (split_into_paragraphs s);
}
