-- ===== src/Throttle/Scopes.antt =====
-- throttle/scopes.py: the keys that the checks of a throttle count under.
pub mod Separate
mod Samples
use Prim.Native.String.{◌++◌}
use resilience_kit.Prelude.{String, Option, none, some, is_empty, if◌then◌else◌}
use resilience_kit.Prelude.Dict
use resilience_kit.Prelude.Dict.{Dict}
use resilience_kit.Exceptions.{Exn, Outcome, returned, raised, known, validation_error}

pub data Scope : Type 0 where
  ip endpoint user_tier global burst auth : Scope

abbrev pub missing_attr : Exn
missing_attr = record { cls = known validation_error; payload = 0 }

-- A value may be `None`.
abbrev pub Attrs : Type 0
Attrs = Dict (Option String)

abbrev pub or_missing : Option (Option String) → Outcome String
or_missing none = raised missing_attr
or_missing (some none) = raised missing_attr
or_missing (some (some value)) = if is_empty value then raised missing_attr else returned value

-- `_required`
unfoldable pub required : Attrs → String → Outcome String
required attrs key = or_missing (Dict.get attrs key)

-- An f-string of a prefix and a required attribute.
abbrev pub prefixed : String → Outcome String → Outcome String
prefixed prefix (returned value) = returned (prefix ++ value)
prefixed prefix (raised e) = raised e

unfoldable pub build_key : Scope → Attrs → Outcome String
unfolding required
build_key global attrs = returned "throttle:global"
build_key ip attrs = prefixed "throttle:ip:" (required attrs "ip")
build_key endpoint attrs = prefixed "throttle:endpoint:" (required attrs "endpoint")
build_key user_tier attrs = prefixed "throttle:user_tier:" (required attrs "user_tier")
build_key burst attrs = prefixed "throttle:burst:" (required attrs "ip")
build_key auth attrs = prefixed "throttle:auth:" (required attrs "ip")
