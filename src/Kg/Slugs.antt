-- ===== src/Kg/Slugs.antt =====
-- packages/kg/src/rca_kg/slugs.py. `str.lower` is followed on every character whose lower case
-- holds a letter or digit of the slug: A to Z, the Kelvin sign and the dotted capital I. Any other
-- character is outside `[a-z0-9]` before and after it.
pub mod Segments
mod Tests
use Prim.Native.Char.{Char, code}
use Prim.Native.String.{String}
use industrial_rca.Prelude.{
  ℕ, zero, suc, ◌-◌, Bool, true, false, ◌&&◌, ◌||◌, not, leb, ◌==◌, if◌then◌else◌,
}

-- The character at a position of a text.
char_of : ℕ → String → Char → Char
char_of n String.[] d = d
char_of zero (String.◌∷◌ c s) d = c
char_of (suc n) (String.◌∷◌ c s) d = char_of n s d

-- `str.lower`, one character put before what the rest gives.
lower_char : Char → String → String
unfolding char_of
lower_char c rest =
    if leb b'A' (code c) && leb (code c) b'Z'
    then String.◌∷◌ (char_of (code c - b'A') "abcdefghijklmnopqrstuvwxyz" c) rest
    else if code c == 0x212a
    then String.◌∷◌ "k" rest
    else if code c == 0x130
    then String.◌∷◌ "i" (String.◌∷◌ "̇" rest)
    else String.◌∷◌ c rest

unfoldable pub lower : String → String
unfolding lower_char
lower String.[] = ""
lower (String.◌∷◌ c s) = lower_char c (lower s)

-- The class `[a-z0-9]`.
unfoldable pub is_word : Char → Bool
is_word c = (leb b'a' (code c) && leb (code c) b'z') || (leb b'0' (code c) && leb (code c) b'9')

-- `re.sub(r"[^a-z0-9]+", "-", s)`; the flag says that the character before was replaced too.
unfoldable pub dash_runs : Bool → String → String
dash_runs after String.[] = ""
dash_runs after (String.◌∷◌ c s) =
    let rest = dash_runs (not (is_word c)) s in
    if is_word c then String.◌∷◌ c rest else if after then rest else String.◌∷◌ "-" rest

-- `.strip("-")`: the left end, then the right end.
unfoldable pub strip_left : String → String
strip_left String.[] = ""
strip_left (String.◌∷◌ c s) =
    let rest = strip_left s in if code c == b'-' then rest else String.◌∷◌ c s

is_empty : String → Bool
is_empty String.[] = true
is_empty (String.◌∷◌ c s) = false

unfoldable pub strip_right : String → String
unfolding is_empty
strip_right String.[] = ""
strip_right (String.◌∷◌ c s) =
    let rest = strip_right s in if (code c == b'-') && is_empty rest then "" else String.◌∷◌ c rest

unfoldable pub slug : String → String
unfolding lower dash_runs strip_left strip_right is_word
slug value = strip_right (strip_left (dash_runs false (lower value)))
