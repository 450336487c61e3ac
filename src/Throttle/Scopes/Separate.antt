-- ===== src/Throttle/Scopes/Separate.antt =====
-- Keys of different scopes or attributes differ.
use Prim.Native.String.{◌++◌, len, slice}
use text.Mathlib.TextLemmas.{append_assoc, append_cancel_left}
use text.Mathlib.TextPositions.{slice-append_middle}
use resilience_kit.Prelude.{◌+◌, String, str_eq, if◌then◌else◌, ◌≡◌, refl, sym, ◌∙◌, ap}
use resilience_kit.Exceptions.{Outcome, returned, raised}
use resilience_kit.Throttle.Scopes.{
  Scope, ip, endpoint, user_tier, global, burst, auth, Attrs, required, prefixed, build_key,
}

-- What follows "throttle:" in a key of the scope.
abbrev name_of : Scope → String
name_of ip = "ip:"
name_of endpoint = "endpoint:"
name_of user_tier = "user_tier:"
name_of global = "global"
name_of burst = "burst:"
name_of auth = "auth:"

-- The attribute that the scope's keys carry.
abbrev pub attr_of : Scope → Attrs → Outcome String
attr_of ip attrs = required attrs "ip"
attr_of endpoint attrs = required attrs "endpoint"
attr_of user_tier attrs = required attrs "user_tier"
attr_of global attrs = returned ""
attr_of burst attrs = required attrs "ip"
attr_of auth attrs = required attrs "ip"

build_key-attr_of :
    (scope : Scope) (attrs : Attrs)
    → build_key scope attrs ≡ prefixed ("throttle:" ++ name_of scope) (attr_of scope attrs)
unfolding build_key
build_key-attr_of ip attrs = refl
build_key-attr_of endpoint attrs = refl
build_key-attr_of user_tier attrs = refl
build_key-attr_of global attrs = refl
build_key-attr_of burst attrs = refl
build_key-attr_of auth attrs = refl

-- The scope of a letter.
abbrev scope_at : String → Scope
scope_at s =
    if str_eq s "i"
    then ip
    else if str_eq s "e"
    then endpoint
    else if str_eq s "u"
    then user_tier
    else if str_eq s "b"
    then burst
    else if str_eq s "a"
    then auth
    else global

-- The text after "throttle:" in a key.
slice-name :
    (t rest value : String)
    → slice ((("throttle:" ++ t) ++ rest) ++ value) (len "throttle:") (len "throttle:" + len t) ≡ t
slice-name t rest value =
    ap (λ s. slice s (len "throttle:") (len "throttle:" + len t))
      (append_assoc ("throttle:" ++ t) rest value ∙ append_assoc "throttle:" t (rest ++ value))
    ∙ slice-append_middle "throttle:" t (rest ++ value)

scope_at-name_of :
    (scope : Scope) (value : String)
    → scope_at (slice (("throttle:" ++ name_of scope) ++ value) 9 10) ≡ scope
scope_at-name_of ip value = ap scope_at (slice-name "i" "p:" value)
scope_at-name_of endpoint value = ap scope_at (slice-name "e" "ndpoint:" value)
scope_at-name_of user_tier value = ap scope_at (slice-name "u" "ser_tier:" value)
scope_at-name_of global value = ap scope_at (slice-name "g" "lobal" value)
scope_at-name_of burst value = ap scope_at (slice-name "b" "urst:" value)
scope_at-name_of auth value = ap scope_at (slice-name "a" "uth:" value)

key_text :
    (prefix : String) (out : Outcome String) (key : String)
    → prefixed prefix out ≡ returned key
    → (value : String) × (out ≡ returned value) × (prefix ++ value ≡ key)
key_text prefix (returned value) key h = (value, refl, cc)
key_text prefix (raised e) key h = cc

-- A key belongs to one scope and one attribute: two checks count under the same key only if their
-- scopes are the same and their attributes too.
pub build_key_separate :
    (scope other : Scope) (attrs others : Attrs) (key : String)
    → build_key scope attrs ≡ returned key
    → build_key other others ≡ returned key
    → (scope ≡ other) × (attr_of scope attrs ≡ attr_of other others)
build_key_separate scope other attrs others key h h' =
    let (v, k, same) =
      key_text ("throttle:" ++ name_of scope) (attr_of scope attrs) key
        (sym (build_key-attr_of scope attrs) ∙ h) in
    let (w, k', same') =
      key_text ("throttle:" ++ name_of other) (attr_of other others) key
        (sym (build_key-attr_of other others) ∙ h') in
    let scopes : scope ≡ other =
      sym (scope_at-name_of scope v)
      ∙ ap (λ s. scope_at (slice s 9 10)) (same ∙ sym same')
      ∙ scope_at-name_of other w in
    let values : v ≡ w =
      append_cancel_left ("throttle:" ++ name_of scope) v w
        (same ∙ sym same' ∙ ap (λ s. ("throttle:" ++ name_of s) ++ w) (sym scopes)) in
    (scopes, k ∙ ap returned values ∙ sym k')
