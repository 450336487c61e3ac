-- ===== src/Prelude/Texts.antt =====
-- Tests on texts beside those of the library.
use Prim.Native.Nat.{◌-◌}
use Prim.Native.String.{String, len, slice}
use mathlib.Core.Bool.{Bool, ◌&&◌, ◌||◌, false}
use mathlib.Core.List.{List, [], ◌∷◌}
use text.Mathlib.Text.{◌==◌}
use resilience_kit.Prelude.Tests.{leb}

-- `not s`
abbrev pub is_empty : String → Bool
is_empty s = s == ""

-- `s.endswith(t)`
abbrev pub ends_with : String → String → Bool
ends_with s t = leb (len t) (len s) && (slice s (len s - len t) (len s) == t)

-- `s in xs`
abbrev pub str_in : String → List String → Bool
str_in s [] = false
str_in s (x ∷ xs) = (x == s) || str_in s xs
