-- ===== src/Prelude/Text.antt =====
-- JavaScript's reading of a string that may be missing: `undefined`, `null` and '' are falsy.
use Prim.Native.String.{String, ◌++◌ as concat}
use mathlib.Core.Path.{◌≡◌, refl}
use mathlib.Core.Bool.{Bool, true, false, not}
use mathlib.Core.Option.{Option, none, some}
use mathlib.Core.List.{List, [], ◌∷◌}
use text.Mathlib.Text.{◌==◌ as str_eq}

-- `!!s`
abbrev pub truthy_text : String → Bool
truthy_text s = not (str_eq s "")

abbrev pub truthy : Option String → Bool
truthy none = false
truthy (some s) = truthy_text s

-- `a || b`, for a string `b`
abbrev pub or_text : Option String → String → String
or_text none b = b
or_text (some String.[]) b = b
or_text (some (String.◌∷◌ c s)) b = String.◌∷◌ c s

-- `xs.includes(s)`
abbrev pub includes : List String → String → Bool
includes [] s = false
includes (x ∷ xs) s = elim (str_eq x s) [ true ↦ true | false ↦ includes xs s ]

pub or_text-truthy : (s b : String) → truthy_text s ≡ true → or_text (some s) b ≡ s
or_text-truthy String.[] b h = cc
or_text-truthy (String.◌∷◌ c s) b h = refl

-- `parts.join(separator)`
unfoldable pub join : String → List String → String
join separator [] = ""
join separator (p ∷ []) = p
join separator (p ∷ q ∷ ps) = concat p (concat separator (join separator (q ∷ ps)))
