-- ===== src/HttpClient/Client/Plain.antt =====
-- The hosts that `urlparse` and httpx are known to read alike.
use Prim.Native.Char.{Char, code}
use Prim.Native.String.{[], ◌∷◌}
use text.Mathlib.Text.{starts_with}
use resilience_kit.Prelude.{String, Bool, true, ◌&&◌, ◌||◌, not, leb, ◌==◌}

-- A lower-case letter, a digit, or one of the signs - . : and _.
abbrev is_plain_char : Char → Bool
is_plain_char c =
    let n = code c in
    (leb 97 n && leb n 122) || (leb 48 n && leb n 58) || n == 45 || n == 46 || n == 95

abbrev all_plain : String → Bool
all_plain [] = true
all_plain (c ∷ s) = is_plain_char c && all_plain s

-- A host that httpx does not decode: in ASCII, with no internationalised name at its front.
unfoldable pub is_plain : String → Bool
is_plain host = all_plain host && not (starts_with host "xn--")
