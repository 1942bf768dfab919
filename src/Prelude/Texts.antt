-- ===== src/Prelude/Texts.antt =====
-- Of Go's package strings: HasPrefix, HasSuffix, and Index with the slices that it is used for; and
-- the order of texts.
use Prim.Native.Char.{code}
use Prim.Native.String.{String}
use mathlib.Core.Bool.{Bool, true, false, ◌||◌}
use mathlib.Core.Option.{Option, none, some}
use text.Mathlib.Text.{◌==◌ as str_eq}
use kite_kvm.Prelude.Tests.{if◌then◌else◌, ltb, ◌==◌}

-- the text behind `prefix`, if `s` starts with it
unfoldable pub behind : String → String → Option String
behind String.[] s = some s
behind (String.◌∷◌ p ps) String.[] = none
behind (String.◌∷◌ p ps) (String.◌∷◌ c s) =
    let rest = behind ps s in if code p == code c then rest else none

-- The text before and behind the first place where `mark` stands: strings.Index, with the slices.
unfoldable pub split_at_first : String → String → Option (String × String)
split_at_first mark String.[] = elim (behind mark "") [ none ↦ none | some t ↦ some ("", t) ]
split_at_first mark (String.◌∷◌ c s) =
    let later = split_at_first mark s in
    elim (behind mark (String.◌∷◌ c s)) [
      | some t ↦ some ("", t)
      | none ↦ elim later [ none ↦ none | some p ↦ some (String.◌∷◌ c p.0, p.1) ]
    ]

-- strings.HasPrefix
abbrev pub has_prefix : String → String → Bool
has_prefix s prefix = elim (behind prefix s) [ none ↦ false | some rest ↦ true ]

-- strings.HasSuffix
unfoldable pub has_suffix : String → String → Bool
has_suffix String.[] suffix = str_eq suffix ""
has_suffix (String.◌∷◌ c s) suffix =
    let rest = has_suffix s suffix in str_eq (String.◌∷◌ c s) suffix || rest

-- `<` on texts: the order of their codes, the shorter first. For ASCII this is the order of bytes.
unfoldable pub text_ltb : String → String → Bool
text_ltb String.[] String.[] = false
text_ltb String.[] (String.◌∷◌ d t) = true
text_ltb (String.◌∷◌ c s) String.[] = false
text_ltb (String.◌∷◌ c s) (String.◌∷◌ d t) =
    let rest = text_ltb s t in if code c == code d then rest else ltb (code c) (code d)
