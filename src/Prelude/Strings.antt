-- ===== src/Prelude/Strings.antt =====
-- Methods of Python's `str` over the native texts, by recursion on the characters.
use Prim.Native.Nat.{ℕ, zero, suc}
use Prim.Native.Char.{Char, code}
use Prim.Native.String.{String}
use mathlib.Core.Bool.{Bool, true, false, ◌||◌}
use mathlib.Core.List.{List, [], ◌∷◌}
use text.Mathlib.Text.{◌==◌ as str_eq, starts_with}
use cactus_runner.Prelude.Tests.{◌==◌, ltb, if◌then◌else◌}
use cactus_runner.Prelude.Lists.{concat}

-- `part in s`
unfoldable pub contains : String → String → Bool
contains part String.[] = str_eq part ""
contains part (String.◌∷◌ c s) = starts_with (String.◌∷◌ c s) part || contains part s

-- s.endswith(suffix)
unfoldable pub ends_with : String → String → Bool
ends_with String.[] suffix = str_eq "" suffix
ends_with (String.◌∷◌ c s) suffix = str_eq (String.◌∷◌ c s) suffix || ends_with s suffix

-- Put a character before the first part.
abbrev pub cons_head : Char → List String → List String
cons_head c [] = String.◌∷◌ c String.[] ∷ []
cons_head c (part ∷ parts) = String.◌∷◌ c part ∷ parts

-- s.split(separator), for a separator of one character
unfoldable pub split : ℕ → String → List String
split separator String.[] = "" ∷ []
split separator (String.◌∷◌ c s) =
    let rest = split separator s in if code c == separator then "" ∷ rest else cons_head c rest

-- separator.join(parts)
unfoldable pub join : String → List String → String
join separator [] = ""
join separator (part ∷ []) = part
join separator (part ∷ next ∷ parts) =
    concat part (concat separator (join separator (next ∷ parts)))

-- The pieces of an f-string.
abbrev pub texts : List String → String
texts [] = ""
texts (part ∷ parts) = concat part (texts parts)

-- s[n:], s[:n]
unfoldable pub drop : ℕ → String → String
drop zero s = s
drop (suc n) String.[] = ""
drop (suc n) (String.◌∷◌ c s) = drop n s

unfoldable pub take : ℕ → String → String
take zero s = ""
take (suc n) String.[] = ""
take (suc n) (String.◌∷◌ c s) = String.◌∷◌ c (take n s)

-- len(s)
unfoldable pub length : String → ℕ
length String.[] = 0
length (String.◌∷◌ c s) = suc (length s)

-- s.lstrip(char), s.rstrip(char), s.strip(char)
unfoldable pub lstrip : ℕ → String → String
lstrip char String.[] = ""
lstrip char (String.◌∷◌ c s) =
    let rest = lstrip char s in if code c == char then rest else String.◌∷◌ c s

abbrev attach : ℕ → Char → String → String
attach char c String.[] = if code c == char then "" else String.◌∷◌ c String.[]
attach char c (String.◌∷◌ d s) = String.◌∷◌ c (String.◌∷◌ d s)

unfoldable pub rstrip : ℕ → String → String
rstrip char String.[] = ""
rstrip char (String.◌∷◌ c s) = attach char c (rstrip char s)

-- s.rstrip(chars)
abbrev one_of : String → Char → Bool
one_of String.[] c = false
one_of (String.◌∷◌ d chars) c = code c == code d || one_of chars c

abbrev attach_unless : Bool → Char → String → String
attach_unless true c String.[] = ""
attach_unless false c String.[] = String.◌∷◌ c String.[]
attach_unless b c (String.◌∷◌ d s) = String.◌∷◌ c (String.◌∷◌ d s)

unfoldable pub rstrip_any : (chars s : String) → String
rstrip_any chars String.[] = ""
rstrip_any chars (String.◌∷◌ c s) = attach_unless (one_of chars c) c (rstrip_any chars s)

unfoldable pub strip : ℕ → String → String
unfolding lstrip rstrip
strip char s = rstrip char (lstrip char s)

-- s < t, by code points
unfoldable pub precedes : (s t : String) → Bool
precedes s String.[] = false
precedes String.[] (String.◌∷◌ d t) = true
precedes (String.◌∷◌ c s) (String.◌∷◌ d t) =
    let rest = precedes s t in if code c == code d then rest else ltb (code c) (code d)
