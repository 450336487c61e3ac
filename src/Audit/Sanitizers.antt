-- ===== src/Audit/Sanitizers.antt =====
-- audit/sanitizers.py: `DefaultRedactor`, `RegexRedactor` and `_luhn_ok`.
--
-- A payload is a tree of dictionaries, lists and tuples. `str.lower` and the substitution of a
-- compiled pattern (module `re`) are arguments.
pub mod Interference
pub mod Luhn
mod Samples
use text.Mathlib.Text.{find?}
use resilience_kit.Prelude.{
  ℕ, ◌+◌, ◌-◌, ◌*◌, ◌%◌, String, Bool, true, false, ◌&&◌, List, [], ◌∷◌, Option, none, some, any,
  map, ltb, leb, ◌==◌, length, is_some, if◌then◌else◌,
}

mutual
  pub data Value : Type 0 where
    str : String → Value
    -- any other leaf
    object : ℕ → Value
    dict : Fields → Value
    list : Items → Value
    tuple : Items → Value

  pub data Fields : Type 0 where
    end : Fields
    field : String → Value → Fields → Fields

  pub data Items : Type 0 where
    nil : Items
    cons : Value → Items → Items

abbrev pub redacted : String
redacted = "[REDACTED]"

-- A `PiiPattern`: `sub f s` replaces each match in `s` by `f` of it.
pub record PiiPattern : Type 0 where
  pub sub : (String → String) → String → String
  pub validator : Option (String → Bool)

-- The loop of `_scrub` over the rules.
unfoldable pub scrub : List PiiPattern → String → String
scrub [] s = s
scrub (rule ∷ rules) s = elim rule.validator [
  | none ↦ scrub rules (rule.sub (λ m. redacted) s)
  | some check ↦ scrub rules (rule.sub (λ m. if check m then redacted else m) s)
]

-- A redactor: its fragments in lower case, and its patterns, of which `DefaultRedactor` has none.
pub record Redactor : Type 0 where
  pub fields : List String
  pub patterns : List PiiPattern

unfoldable pub new : (String → String) → List String → List PiiPattern → Redactor
new lower fields patterns = record { fields = map lower fields; patterns = patterns }

module _ (lower : String → String) (r : Redactor) where
  -- `any(fragment in lowered for fragment in self._fields)`
  unfoldable pub is_redacted_key : String → Bool
  is_redacted_key key = any (λ fragment. is_some (find? (lower key) fragment)) r.fields

  unfoldable mutual
    unfolding is_redacted_key scrub

    -- `_walk`, with `_scrub` of the strings it ends at
    pub walk : Value → Value
    walk (str s) = str (scrub r.patterns s)
    walk (object n) = object n
    walk (dict fs) = dict (walk_dict fs)
    walk (list vs) = list (walk_items vs)
    walk (tuple vs) = tuple (walk_items vs)

    pub walk_dict : Fields → Fields
    walk_dict end = end
    walk_dict (field key v fs) =
        let rest = walk_dict fs in
        let v' = walk v in field key (if is_redacted_key key then str redacted else v') rest

    pub walk_items : Items → Items
    walk_items nil = nil
    walk_items (cons v vs) = cons (walk v) (walk_items vs)

  unfoldable pub sanitize : Fields → Fields
  unfolding walk_dict
  sanitize payload = walk_dict payload

-- `digit * 2 if index % 2 == parity else digit`, less 9 above 9.
abbrev pub luhn_term : Bool → ℕ → ℕ
luhn_term doubles digit =
    let doubled = if doubles then digit * 2 else digit in
    if ltb 9 doubled then doubled - 9 else doubled

-- The loop over the digits left, from an index on.
unfoldable pub checksum : ℕ → ℕ → List ℕ → ℕ
checksum parity index [] = 0
checksum parity index (digit ∷ digits) =
    luhn_term (index % 2 == parity) digit + checksum parity (index + 1) digits

-- `_luhn_ok`, of the digits in the candidate.
unfoldable pub luhn_ok : List ℕ → Bool
unfolding checksum
luhn_ok digits =
    if leb 13 (length digits) && leb (length digits) 19
    then checksum (length digits % 2) 0 digits % 10 == 0
    else false
