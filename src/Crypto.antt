-- ===== src/Crypto.antt =====
-- crypto/fernet.py: `FernetCipher`, with the key settings of settings.py.
--
-- `cryptography` is a parameter, a `Fernet` of functions: which texts it takes as keys, and what a
-- `MultiFernet` over some keys does. `hashlib` and `base64` are the derivation of a key from a
-- passphrase. `lru_cache` is a field of the state, and bytes are texts. Warnings are left out.
pub mod Rotation
mod Samples
use resilience_kit.Prelude.{
  ℕ, String, Bool, true, false, List, [], ◌∷◌, Option, none, some, map, is_empty, str_eq,
  if◌then◌else◌,
}
use resilience_kit.Exceptions.{
  Cls, Exn, Outcome, returned, raised, known, user, resilience_kit_error, decryption_error,
  value_error,
}

pub record CryptoSettings : Type 0 where
  pub field_encryption_keys : List String
  pub field_encryption_key : Option String
  pub environment : String

abbrev pub encryption_config_error : Exn
encryption_config_error = record { cls = user 20 (known resilience_kit_error); payload = 0 }

abbrev pub invalid : Exn
invalid = record { cls = known decryption_error; payload = 0 }

abbrev pub unicode_encode_error : Exn
unicode_encode_error = record { cls = user 21 (known value_error); payload = 0 }

abbrev pub dev_fallback_key : String
dev_fallback_key = "resilience-kit::dev-only-insecure::do-not-use-in-prod"

pub record Fernet (S : Type 0) : Type 0 where
  pub is_key : String → Bool
  pub derive : String → String
  -- of a `MultiFernet`; a token carries the time and a random vector
  pub encrypt : List String → String → S → S × String
  -- `none` is `InvalidToken`.
  pub decrypt : List String → String → Option String
  pub rotate : List String → String → S → S × Option String
  pub is_ascii : String → Bool

unfoldable pub ordered_keys : CryptoSettings → List String
ordered_keys settings = elim settings.field_encryption_keys [
  | key ∷ keys ↦ key ∷ keys
  | [] ↦ elim settings.field_encryption_key [ none ↦ [] | some key ↦ key ∷ [] ]
]

-- The cache of `_fernet`, and all else.
pub record Process (S : Type 0) : Type 0 where
  pub cached : Option (List String)
  pub env : S

unfoldable pub reset_fernet_cache : {S : Type 0} → Process S → Process S
reset_fernet_cache p = record p { cached = none }

module _ {S : Type 0} (f : Fernet S) where
  unfoldable pub resolve_fernet_key : String → String
  resolve_fernet_key key_source = if f.is_key key_source then key_source else f.derive key_source

  -- `_fernet`: the keys of the `MultiFernet`.
  unfoldable pub fernet : CryptoSettings → Process S → Process S × Outcome (List String)
  unfolding resolve_fernet_key ordered_keys
  fernet settings p = elim p.cached [
    | some keys ↦ (p, returned keys)
    | none ↦ elim (ordered_keys settings) [
      | key ∷ keys ↦
          let resolved = map resolve_fernet_key (key ∷ keys) in
          (record p { cached = some resolved }, returned resolved)
      | [] ↦
          let resolved = resolve_fernet_key dev_fallback_key ∷ [] in
          if str_eq settings.environment "prod"
          then (p, raised encryption_config_error)
          else (record p { cached = some resolved }, returned resolved)
    ]
  ]

  unfoldable pub encrypt : CryptoSettings → String → Process S → Process S × Outcome String
  unfolding fernet
  encrypt settings plaintext p =
      if is_empty plaintext
      then (p, returned plaintext)
      else (let (p', r) = fernet settings p in
          elim r [
            | raised e ↦ (p', raised e)
            | returned keys ↦
                let (s, token) = f.encrypt keys plaintext p'.env in
                (record p' { env = s }, returned token)
          ])

  unfoldable pub decrypt : CryptoSettings → String → Process S → Process S × Outcome String
  unfolding fernet
  decrypt settings ciphertext p =
      if is_empty ciphertext
      then (p, returned ciphertext)
      else (let (p', r) = fernet settings p in
          elim r [
            | raised e ↦ (p', raised e)
            | returned keys ↦
                if f.is_ascii ciphertext
                then elim (f.decrypt keys ciphertext) [
                  | none ↦ (p', raised invalid)
                  | some plaintext ↦ (p', returned plaintext)
                ]
                else (p', raised unicode_encode_error)
          ])

  unfoldable pub rotate : CryptoSettings → String → Process S → Process S × Outcome String
  unfolding fernet
  rotate settings token p =
      if is_empty token
      then (p, returned token)
      else (let (p', r) = fernet settings p in
          elim r [
            | raised e ↦ (p', raised e)
            | returned keys ↦
                if f.is_ascii token
                then (let (s, rotated) = f.rotate keys token p'.env in
                    elim rotated [
                      | none ↦ (record p' { env = s }, raised invalid)
                      | some token' ↦ (record p' { env = s }, returned token')
                    ])
                else (p', raised unicode_encode_error)
          ])
