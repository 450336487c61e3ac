-- ===== src/Audit/Sanitizers/Interference.antt =====
-- What the sanitised copy can depend on.
use resilience_kit.Prelude.{String, true, ◌≡◌, refl, ap, ap₂, arith}
use resilience_kit.Audit.Sanitizers.{
  Value, dict, list, tuple, Fields, end, field, Items, nil, cons, Redactor, is_redacted_key, walk,
  walk_dict, walk_items, sanitize,
}

module _ (lower : String → String) (r : Redactor) where
  -- Alike but for the values under redacted keys, at any depth.
  mutual
    pub data SameValue : Value → Value → Type 0 where
      same : (v : Value) → SameValue v v
      dicts : {fs gs : Fields} → SameFields fs gs → SameValue (dict fs) (dict gs)
      lists : {vs ws : Items} → SameItems vs ws → SameValue (list vs) (list ws)
      tuples : {vs ws : Items} → SameItems vs ws → SameValue (tuple vs) (tuple ws)

    pub data SameFields : Fields → Fields → Type 0 where
      ends : SameFields end end
      secret :
          (key : String) (v w : Value) {fs gs : Fields}
          → is_redacted_key lower r key ≡ true
          → SameFields fs gs
          → SameFields (field key v fs) (field key w gs)
      public :
          (key : String) {v w : Value} {fs gs : Fields}
          → SameValue v w
          → SameFields fs gs
          → SameFields (field key v fs) (field key w gs)

    pub data SameItems : Items → Items → Type 0 where
      nils : SameItems nil nil
      conses :
          {v w : Value} {vs ws : Items}
          → SameValue v w
          → SameItems vs ws
          → SameItems (cons v vs) (cons w ws)

  mutual
    unfolding walk walk_dict walk_items

    walk-SameValue : {v w : Value} → SameValue v w → walk lower r v ≡ walk lower r w
    walk-SameValue (same v) = refl
    walk-SameValue (dicts h) = ap dict (walk_dict-SameFields h)
    walk-SameValue (lists h) = ap list (walk_items-SameItems h)
    walk-SameValue (tuples h) = ap tuple (walk_items-SameItems h)

    walk_dict-SameFields :
        {fs gs : Fields} → SameFields fs gs → walk_dict lower r fs ≡ walk_dict lower r gs
    walk_dict-SameFields ends = refl
    walk_dict-SameFields (secret key v w h hs) = ground (arith, h, walk_dict-SameFields hs)
    walk_dict-SameFields (public key h hs) =
        ground (arith, walk-SameValue h, walk_dict-SameFields hs)

    walk_items-SameItems :
        {vs ws : Items} → SameItems vs ws → walk_items lower r vs ≡ walk_items lower r ws
    walk_items-SameItems nils = refl
    walk_items-SameItems (conses h hs) = ap₂ cons (walk-SameValue h) (walk_items-SameItems hs)

  -- Nothing of a value under a redacted key gets out, however deep it lies: two payloads that
  -- differ in such values only have one and the same sanitised copy.
  pub sanitize-SameFields :
      (p q : Fields) → SameFields p q → sanitize lower r p ≡ sanitize lower r q
  unfolding sanitize
  sanitize-SameFields p q h = walk_dict-SameFields h
