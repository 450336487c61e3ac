-- ===== src/Crypto/Rotation.antt =====
-- What a token decrypts to under other keys.
use resilience_kit.Prelude.{
  Memᴰ, head, tail, String, true, false, List, [], ◌∷◌, Option, none, some, map, is_empty, ◌≡◌,
  refl, sym, subst, ◌∙◌, inl, inr, Bool-cases, Option-cases, arith,
}
use mathlib.Core.List.Memᴰ
use resilience_kit.Exceptions.{returned}
use resilience_kit.Crypto.{
  CryptoSettings, Fernet, ordered_keys, Process, resolve_fernet_key, fernet, reset_fernet_cache,
  encrypt, decrypt, rotate,
}

mem_cons :
    (key : String) (keys : List String)
    → Memᴰ key keys
    → (first : String) × (others : List String) × (keys ≡ first ∷ others)
mem_cons key [] h = elim h [ ]
mem_cons key (first ∷ others) h = (first, others, refl)

-- The first key that decrypts the token.
unfoldable pub first_of : (String → String → Option String) → List String → String → Option String
first_of one [] token = none
first_of one (key ∷ keys) token =
    let rest = first_of one keys token in
    elim (one key token) [ none ↦ rest | some plaintext ↦ some plaintext ]

module _ {S : Type 0} (f : Fernet S) where
  -- A token of a plaintext under a key: another key decrypts it to the plaintext as well, or not at all.
  pub record IsTokenOf (one : String → String → Option String) (key plaintext token : String)
      : Type 0 where
    pub opens : one key token ≡ some plaintext
    pub authentic : (other found : String) → one other token ≡ some found → found ≡ plaintext
    pub full : is_empty token ≡ false
    pub ascii : f.is_ascii token ≡ true

  -- A `MultiFernet` decrypts by each key in turn, and encrypts with its first key. Of a token that it
  -- decrypts, `rotate` makes one under its first key.
  pub record IsMultiFernet (one : String → String → Option String) : Type 0 where
    pub in_turn :
        (keys : List String) (token : String) → f.decrypt keys token ≡ first_of one keys token
    pub encrypts :
        (key : String) (keys : List String) (plaintext : String) (s : S)
        → IsTokenOf one key plaintext (f.encrypt (key ∷ keys) plaintext s).1
    pub rotates :
        (key : String) (keys : List String) (token plaintext : String) (s : S)
        → f.decrypt (key ∷ keys) token ≡ some plaintext
        → (token' : String) × ((f.rotate (key ∷ keys) token s).1 ≡ some token')
          × IsTokenOf one key plaintext token'

  module _ (one : String → String → Option String) (multi : IsMultiFernet one) where
    first_of_lem :
        (key plaintext token : String) (others : List String)
        → IsTokenOf one key plaintext token
        → Memᴰ key others
        → first_of one others token ≡ some plaintext
    unfolding first_of
    first_of_lem key plaintext token others made (head {x = other} same) =
        ground (arith, made.opens)
    first_of_lem key plaintext token others made (tail {x = other} h) =
        elim (Option-cases (one other token)) [
          | inl k ↦ ground (arith, k, first_of_lem key plaintext token _ made h)
          | inr (found, k) ↦ ground (arith, k, made.authentic other found k)
        ]

    abbrev resolved : List String → List String
    resolved = map (resolve_fernet_key f)

    fernet_reset :
        (settings : CryptoSettings) (key : String) (keys : List String) (p : Process S)
        → ordered_keys settings ≡ key ∷ keys
        → fernet f settings (reset_fernet_cache p)
          ≡ (record p { cached = some (resolved (key ∷ keys)) }, returned (resolved (key ∷ keys)))
    unfolding fernet reset_fernet_cache
    fernet_reset settings key keys p h = ground (arith, h)

    fernet_any :
        (settings : CryptoSettings) (key : String) (p : Process S)
        → Memᴰ key (ordered_keys settings)
        → fernet f settings (reset_fernet_cache p) ≡ (
          record p { cached = some (resolved (ordered_keys settings)) },
          returned (resolved (ordered_keys settings)),
        )
    fernet_any settings key p h =
        let (first, keys, same) = mem_cons key (ordered_keys settings) h in
        subst
          (λ all.
            fernet f settings (reset_fernet_cache p)
            ≡ (record p { cached = some (resolved all) }, returned (resolved all)))
          (sym same) (fernet_reset settings first keys p same)

    -- A token under a key decrypts under all keys that it is among.
    decrypt_token :
        (settings : CryptoSettings) (key plaintext token : String) (q : Process S)
        → IsTokenOf one (resolve_fernet_key f key) plaintext token
        → Memᴰ key (ordered_keys settings)
        → (decrypt f settings token (reset_fernet_cache q)).1 ≡ returned plaintext
    unfolding decrypt
    decrypt_token settings key plaintext token q made h =
        let all = resolved (ordered_keys settings) in
        let found =
          multi.in_turn all token
          ∙ first_of_lem (resolve_fernet_key f key) plaintext token all made
              (Memᴰ.map (resolve_fernet_key f) h) in
        ground (arith, fernet_any settings key q h, found, made.full, made.ascii)

    encrypt_token :
        (settings : CryptoSettings) (key : String) (keys : List String) (plaintext : String)
        (p : Process S)
        → ordered_keys settings ≡ key ∷ keys
        → is_empty plaintext ≡ false
        → (encrypt f settings plaintext (reset_fernet_cache p)).1
          ≡ returned (f.encrypt (resolved (key ∷ keys)) plaintext p.env).1
    unfolding encrypt
    encrypt_token settings key keys plaintext p h full =
        ground (arith, full, fernet_reset settings key keys p h)

    -- Whatever is encrypted under some keys decrypts to itself under all keys that the primary one is
    -- still among, once the cache has been reset after the change of the settings.
    pub decrypt-encrypt :
        (old new : CryptoSettings) (key : String) (keys : List String) (plaintext : String)
        (p q : Process S)
        → ordered_keys old ≡ key ∷ keys
        → Memᴰ key (ordered_keys new)
        → (token : String) × ((encrypt f old plaintext (reset_fernet_cache p)).1 ≡ returned token)
          × ((decrypt f new token (reset_fernet_cache q)).1 ≡ returned plaintext)
    unfolding encrypt decrypt
    decrypt-encrypt old new key keys plaintext p q h among =
        elim (Bool-cases (is_empty plaintext)) [
          | inl k ↦ (plaintext, ground (arith, k), ground (arith, k))
          | inr k ↦ (
            (f.encrypt (resolved (key ∷ keys)) plaintext p.env).1,
            encrypt_token old key keys plaintext p h k,
            decrypt_token new key plaintext (f.encrypt (resolved (key ∷ keys)) plaintext p.env).1 q
                (multi.encrypts (resolve_fernet_key f key) (resolved keys) plaintext p.env) among,
          )
        ]

    -- A token written under one primary key and rotated under another decrypts to the plaintext under
    -- the new key alone, or any keys that it is among: the old one may be retired. The cache is
    -- reset after each change of the settings.
    pub decrypt-rotate-encrypt :
        (old between new : CryptoSettings) (key primary : String) (keys others : List String)
        (plaintext : String) (p q r : Process S)
        → ordered_keys old ≡ key ∷ keys
        → ordered_keys between ≡ primary ∷ others
        → Memᴰ key (ordered_keys between)
        → Memᴰ primary (ordered_keys new)
        → (token token' : String) × ((encrypt f old plaintext (reset_fernet_cache p)).1
            ≡ returned token)
          × ((rotate f between token (reset_fernet_cache q)).1 ≡ returned token')
          × ((decrypt f new token' (reset_fernet_cache r)).1 ≡ returned plaintext)
    unfolding encrypt decrypt rotate
    decrypt-rotate-encrypt old between new key primary keys others plaintext p q r h h' among
          among' =
        elim (Bool-cases (is_empty plaintext)) [
          | inl k ↦ (plaintext, plaintext, ground (arith, k), ground (arith, k), ground (arith, k))
          | inr k ↦
              let token = (f.encrypt (resolved (key ∷ keys)) plaintext p.env).1 in
              let made =
                multi.encrypts (resolve_fernet_key f key) (resolved keys) plaintext p.env in
              let all = resolved (primary ∷ others) in
              let found =
                multi.in_turn all token
                ∙ first_of_lem (resolve_fernet_key f key) plaintext token all made
                    (Memᴰ.map (resolve_fernet_key f) (subst (Memᴰ key) h' among)) in
              let (token', same, made') =
                multi.rotates (resolve_fernet_key f primary) (resolved others) token plaintext q.env
                  found in
              (
                token,
                token',
                encrypt_token old key keys plaintext p h k,
                ground
                    (arith, fernet_reset between primary others q h', same, made.full, made.ascii),
                decrypt_token new primary plaintext token' r made' among',
              )
        ]
