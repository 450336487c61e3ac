-- ===== src/HttpClient/Idempotency/Header.antt =====
-- The headers that every attempt sends.
use resilience_kit.Prelude.{
  ℕ, suc, String, Bool, false, ◌≡◌, refl, [], ◌∷◌, Option, none, some, is_empty, if◌then◌else◌,
  arith, eq_iff, eq_refl,
}
use resilience_kit.Prelude.Dict
use resilience_kit.Prelude.Dict.{Dict, put, get-put}
use resilience_kit.HttpClient.Idempotency.{
  idempotency_header, or_none, is_key_header, drop_key_headers, resolve_idempotency_header,
}

module _ (lower upper : String → String) where
  -- How many spellings of the header there are.
  abbrev pub count_keys : Dict String → ℕ
  count_keys [] = 0
  count_keys ((k, v) ∷ headers) =
      let rest = count_keys headers in if is_key_header lower upper k then suc rest else rest

  count_keys-drop : (headers : Dict String) → count_keys (drop_key_headers lower upper headers) ≡ 0
  unfolding drop_key_headers
  count_keys-drop [] = refl
  count_keys-drop ((k, v) ∷ headers) = ground (arith, count_keys-drop headers)

  get-drop :
      (headers : Dict String) (j : String)
      → Dict.get (drop_key_headers lower upper headers) j
        ≡ (if is_key_header lower upper j then none else Dict.get headers j)
  unfolding drop_key_headers Dict.get
  get-drop [] j = ground arith
  get-drop ((k, v) ∷ headers) j = ground (arith, eq_iff k j, get-drop headers j)

  count_keys-put :
      (headers : Dict String) (v : String)
      → count_keys headers ≡ 0
      → count_keys (put headers idempotency_header v) ≡ 1
  unfolding put
  count_keys-put [] v h = ground (arith, eq_refl (lower idempotency_header))
  count_keys-put ((k, w) ∷ headers) v h = ground (
    arith,
    h,
    eq_iff k idempotency_header,
    eq_refl (lower idempotency_header),
    count_keys-put headers v,
  )

  -- An explicit key that is not empty is sent under the one spelling of the header that is left,
  -- whatever spellings the caller's headers have, and every other header is sent as it was.
  explicit_key :
      (method key fresh : String) (headers : Option (Dict String)) (auto : Bool) (other : String)
      → is_empty key ≡ false
      → is_key_header lower upper other ≡ false
      → let sent =
          or_none (resolve_idempotency_header lower upper method headers (some key) auto fresh) in
        (Dict.get sent idempotency_header ≡ some key)
        × (count_keys sent ≡ 1)
        × (Dict.get sent other ≡ Dict.get (or_none headers) other)
  unfolding resolve_idempotency_header
  explicit_key method key fresh headers auto other full plain =
      let kept = drop_key_headers lower upper (or_none headers) in
      ground (
        arith,
        full,
        plain,
        get-put kept idempotency_header idempotency_header key,
        get-put kept idempotency_header other key,
        get-drop (or_none headers) other,
        count_keys-put kept key (count_keys-drop (or_none headers)),
        eq_refl idempotency_header,
        eq_refl (lower idempotency_header),
        eq_iff idempotency_header other,
      )
