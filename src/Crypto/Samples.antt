-- ===== src/Crypto/Samples.antt =====
-- A cipher that puts the key and the time before the text, and the theorems at it.
use Prim.Native.String.{◌++◌, len, slice}
use text.Mathlib.Text.{starts_with}
use text.Mathlib.TextPositions.{len-append, slice-append_right, starts_with-append}
use resilience_kit.Prelude.{
  head, tail, ℕ, suc, String, Bool, true, false, ◌||◌, ltb, List, [], ◌∷◌, Option, none, some,
  is_empty, str_eq, eq_iff, Bool-cases, if◌then◌else◌, ◌≡◌, refl, sym, ap, ◌∙◌, inl, inr, arith,
}
use resilience_kit.Exceptions.{returned, raised}
use resilience_kit.Crypto.{
  CryptoSettings, Fernet, ordered_keys, Process, reset_fernet_cache, encrypt, decrypt, rotate,
  invalid,
}
use resilience_kit.Crypto.Rotation.{first_of, IsTokenOf, IsMultiFernet, decrypt-rotate-encrypt}

-- What a token starts with: a letter for the key, and a digit for the time that it was made.
abbrev stamped : String → Bool → String
stamped key late =
    if str_eq key "new" then (if late then "n1" else "n0") else (if late then "o1" else "o0")

len-stamped : (key : String) (late : Bool) → len (stamped key late) ≡ 2
len-stamped key true = elim (Bool-cases (str_eq key "new")) [
  | inl k ↦ ap (λ b. len (if b then "n1" else "o1")) k
  | inr k ↦ ap (λ b. len (if b then "n1" else "o1")) k
]
len-stamped key false = elim (Bool-cases (str_eq key "new")) [
  | inl k ↦ ap (λ b. len (if b then "n0" else "o0")) k
  | inr k ↦ ap (λ b. len (if b then "n0" else "o0")) k
]

abbrev one : String → String → Option String
one key token =
    if starts_with token (stamped key false) || starts_with token (stamped key true)
    then some (slice token 2 (len token))
    else none

abbrev is_late : String → Bool
is_late token = starts_with token "n1" || starts_with token "o1"

abbrev first_stamped : List String → Bool → String
first_stamped [] late = "o0"
first_stamped (key ∷ keys) late = stamped key late

-- The state is the time. A rotated token keeps the time of the one that it is made of.
abbrev cipher : Fernet ℕ
cipher = record {
  is_key = λ key. true;
  derive = λ passphrase. passphrase;
  encrypt = λ keys plaintext s. (suc s, first_stamped keys (ltb 0 s) ++ plaintext);
  decrypt = λ keys token. first_of one keys token;
  rotate = λ keys token s. elim (first_of one keys token) [
    | none ↦ (s, none)
    | some plaintext ↦ (s, some (first_stamped keys (is_late token) ++ plaintext))
  ];
  is_ascii = λ s. true;
}

slice-stamped :
    (key : String) (late : Bool) (plaintext : String)
    → slice (stamped key late ++ plaintext) 2 (len (stamped key late ++ plaintext)) ≡ plaintext
slice-stamped key late plaintext =
    ap (λ n. slice (stamped key late ++ plaintext) n (len (stamped key late ++ plaintext)))
      (sym (len-stamped key late))
    ∙ ap (λ n. slice (stamped key late ++ plaintext) (len (stamped key late)) n)
        (len-append (stamped key late) plaintext)
    ∙ slice-append_right (stamped key late) plaintext

one-stamped :
    (key : String) (late : Bool) (plaintext : String)
    → one key (stamped key late ++ plaintext) ≡ some plaintext
one-stamped key true plaintext =
    ground
      (arith, starts_with-append (stamped key true) plaintext, slice-stamped key true plaintext)
one-stamped key false plaintext =
    ground
      (arith, starts_with-append (stamped key false) plaintext, slice-stamped key false plaintext)

stamped_full :
    (key : String) (late : Bool) (plaintext : String)
    → is_empty (stamped key late ++ plaintext) ≡ false
stamped_full key late plaintext = elim (Bool-cases (is_empty (stamped key late ++ plaintext))) [
  | inr k ↦ k
  | inl k ↦
      let nothing = ap len ((eq_iff (stamped key late ++ plaintext) "").0 k) in
      absurd (omega (arith, nothing, len-append (stamped key late) plaintext, len-stamped key late))
]

stamped-IsTokenOf :
    (key : String) (late : Bool) (plaintext : String)
    → IsTokenOf cipher one key plaintext (stamped key late ++ plaintext)
stamped-IsTokenOf key late plaintext = record {
  opens = one-stamped key late plaintext;
  authentic = λ other found h. ground (arith, h, slice-stamped key late plaintext);
  full = stamped_full key late plaintext;
  ascii = refl;
}

cipher-IsMultiFernet : IsMultiFernet cipher one
cipher-IsMultiFernet = record {
  in_turn = λ keys token. refl;
  encrypts = λ key keys plaintext s. stamped-IsTokenOf key (ltb 0 s) plaintext;
  rotates = λ key keys token plaintext s h. (
    stamped key (is_late token) ++ plaintext,
    ground (arith, h),
    stamped-IsTokenOf key (is_late token) plaintext,
  );
}

abbrev with_keys : List String → CryptoSettings
with_keys keys = record {
  field_encryption_keys = keys;
  field_encryption_key = none;
  environment = "prod";
}

abbrev start : Process ℕ
start = record { cached = none; env = 0 }

old_token_kept :
    (decrypt cipher (with_keys ("new" ∷ "old" ∷ [])) "o0hello" start).1 ≡ returned "hello"
unfolding decrypt first_of
old_token_kept = refl

retired_key : (decrypt cipher (with_keys ("new" ∷ [])) "o0hello" start).1 ≡ raised invalid
unfolding decrypt first_of
retired_key = refl

decrypt-rotate-encrypt_example :
    (token token' : String) × ((encrypt cipher
        (with_keys ("old" ∷ []))
        "hello"
        (reset_fernet_cache start)).1
      ≡ returned token)
    × ((rotate cipher (with_keys ("new" ∷ "old" ∷ [])) token (reset_fernet_cache start)).1
        ≡ returned token')
    × ((decrypt cipher (with_keys ("new" ∷ [])) token' (reset_fernet_cache start)).1
        ≡ returned "hello")
unfolding ordered_keys
decrypt-rotate-encrypt_example =
    decrypt-rotate-encrypt cipher one cipher-IsMultiFernet (with_keys ("old" ∷ []))
      (with_keys ("new" ∷ "old" ∷ [])) (with_keys ("new" ∷ [])) "old" "new" [] ("old" ∷ []) "hello"
      start start start refl refl (tail (head refl)) (head refl)
