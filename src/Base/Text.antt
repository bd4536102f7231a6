-- ===== src/Base/Text.antt =====
-- Python's text operations, on texts of ASCII characters.
pub mod Laws
use Prim.Native.Nat.{ℕ}
use Prim.Native.Char.{Char, code}
use Prim.Native.String.{String, ◌++◌ as ◌<>◌}
use mathlib.Core.Bool.{Bool, false, ◌&&◌, ◌||◌}
use mathlib.Core.Option.{Option, none, some}
use mathlib.Core.List.{List, [], ◌∷◌}
use text.Mathlib.Text.{◌==◌ as ◌=ₛ◌, starts_with}
use factory_pattern_design.Base.Tests.{leb, ◌==◌, if◌then◌else◌}

-- `s[0]`, with `none` for the `IndexError`
abbrev pub first : String → Option Char
first String.[] = none
first (String.◌∷◌ c s) = some c

-- `s[1:]`
abbrev pub rest_of : String → String
rest_of String.[] = ""
rest_of (String.◌∷◌ c s) = s

abbrev pub is_digit : Char → Bool
is_digit c = leb b'0' (code c) && leb (code c) b'9'

abbrev pub is_alpha : Char → Bool
is_alpha c = (leb b'a' (code c) && leb (code c) b'z') || (leb b'A' (code c) && leb (code c) b'Z')

abbrev pub is_space : Char → Bool
is_space c = (leb 28 (code c) && leb (code c) 32) || (leb 9 (code c) && leb (code c) 13)

abbrev pub glue : Char → List String → List String
glue c [] = String.◌∷◌ c "" ∷ []
glue c (w ∷ ws) = String.◌∷◌ c w ∷ ws

-- `s.split(sep)`, for a separator of one character
unfoldable pub split : ℕ → String → List String
split sep String.[] = "" ∷ []
split sep (String.◌∷◌ c s) =
    let rest = split sep s in if code c == sep then "" ∷ rest else glue c rest

-- `sep in s`, for one character
unfoldable pub contains_char : ℕ → String → Bool
contains_char sep String.[] = false
contains_char sep (String.◌∷◌ c s) = (code c == sep) || contains_char sep s

-- `t in s`
unfoldable pub contains_text : String → String → Bool
contains_text t String.[] = t =ₛ ""
contains_text t (String.◌∷◌ c s) = starts_with (String.◌∷◌ c s) t || contains_text t s

-- `s.lstrip()`
unfoldable pub lstrip : String → String
lstrip String.[] = ""
lstrip (String.◌∷◌ c s) = let rest = lstrip s in if is_space c then rest else String.◌∷◌ c s

abbrev pub keep_text : Char → String → String
keep_text c String.[] = if is_space c then "" else String.◌∷◌ c ""
keep_text c (String.◌∷◌ d s) = String.◌∷◌ c (String.◌∷◌ d s)

-- `s.rstrip()`
unfoldable pub rstrip : String → String
rstrip String.[] = ""
rstrip (String.◌∷◌ c s) = keep_text c (rstrip s)

-- `s.strip()`
unfoldable pub strip : String → String
unfolding lstrip rstrip
strip s = rstrip (lstrip s)

-- What `strip` of bytes takes off
abbrev is_byte_space : Char → Bool
is_byte_space c = (leb 9 (code c) && leb (code c) 13) || (code c == 32)

unfoldable lstrip_bytes : String → String
lstrip_bytes String.[] = ""
lstrip_bytes (String.◌∷◌ c s) =
    let rest = lstrip_bytes s in if is_byte_space c then rest else String.◌∷◌ c s

abbrev keep_bytes : Char → String → String
keep_bytes c String.[] = if is_byte_space c then "" else String.◌∷◌ c ""
keep_bytes c (String.◌∷◌ d s) = String.◌∷◌ c (String.◌∷◌ d s)

unfoldable rstrip_bytes : String → String
rstrip_bytes String.[] = ""
rstrip_bytes (String.◌∷◌ c s) = keep_bytes c (rstrip_bytes s)

-- `s.strip()` of bytes
unfoldable pub strip_bytes : String → String
unfolding lstrip_bytes rstrip_bytes
strip_bytes s = rstrip_bytes (lstrip_bytes s)

abbrev is_line_end : Char → Bool
is_line_end c = (leb 10 (code c) && leb (code c) 13) || (leb 28 (code c) && leb (code c) 30)

abbrev starts_with_newline : String → Bool
starts_with_newline String.[] = false
starts_with_newline (String.◌∷◌ c s) = code c == 10

-- `s.splitlines()`; a carriage return and the newline behind it end one line
unfoldable pub splitlines : String → List String
splitlines String.[] = []
splitlines (String.◌∷◌ c s) =
    let rest = splitlines s in
    if is_line_end c
    then (if (code c == 13) && starts_with_newline s then rest else "" ∷ rest)
    else glue c rest

abbrev put_front : Char → Option String → Option String
put_front c none = none
put_front c (some s) = some (String.◌∷◌ c s)

-- What stands in front of the suffix, with `none` where `s` does not end in it.
unfoldable pub before_suffix : String → String → Option String
before_suffix suffix String.[] = if suffix =ₛ "" then some "" else none
before_suffix suffix (String.◌∷◌ c s) =
    let rest = before_suffix suffix s in
    if String.◌∷◌ c s =ₛ suffix then some "" else put_front c rest

-- `sep.join(words)`
unfoldable pub join : String → List String → String
join sep [] = ""
join sep (w ∷ []) = w
join sep (w ∷ v ∷ ws) = w <> (sep <> join sep (v ∷ ws))

-- `x in words`
unfoldable pub member : String → List String → Bool
member x [] = false
member x (w ∷ ws) = (w =ₛ x) || member x ws
