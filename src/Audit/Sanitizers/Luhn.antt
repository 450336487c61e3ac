-- ===== src/Audit/Sanitizers/Luhn.antt =====
-- The check of card numbers that keeps other runs of digits from being masked.
use resilience_kit.Prelude.{
  ℕ, ◌+◌, ◌%◌, ◌≤◌, Bool, true, false, ◌≡◌, ◌≢◌, List, [], ◌∷◌, ◌++◌, ◌==◌, length, length-append,
  arith,
}
use resilience_kit.Audit.Sanitizers.{luhn_term, checksum, luhn_ok}

luhn_term-injective :
    (doubles : Bool) (d d' : ℕ)
    → d ≤ 9
    → d' ≤ 9
    → d ≢ d'
    → (luhn_term doubles d ≢ luhn_term doubles d')
luhn_term-injective doubles d d' l l' n = ground arith

luhn_term-le : (doubles : Bool) (d : ℕ) → d ≤ 9 → luhn_term doubles d ≤ 9
luhn_term-le doubles d l = ground arith

checksum-append :
    (parity index : ℕ) (xs : List ℕ) (d : ℕ) (ys : List ℕ)
    → checksum parity index (xs ++ d ∷ ys)
      ≡ checksum parity index xs
        + luhn_term ((index + length xs) % 2 == parity) d
        + checksum parity (index + length xs + 1) ys
unfolding checksum
checksum-append parity index [] d ys = ground arith
checksum-append parity index (x ∷ xs) d ys =
    ground (arith, checksum-append parity (index + 1) xs d ys)

-- A candidate that passes the check fails it once any one of its digits is changed.
luhn_ok-one_digit :
    (xs ys : List ℕ) (d d' : ℕ)
    → d ≤ 9
    → d' ≤ 9
    → d ≢ d'
    → luhn_ok (xs ++ d ∷ ys) ≡ true
    → luhn_ok (xs ++ d' ∷ ys) ≡ false
unfolding luhn_ok
luhn_ok-one_digit xs ys d d' l l' n ok =
    let parity = (length xs + (1 + length ys)) % 2 in
    let doubles = length xs % 2 == parity in
    ground (
      arith,
      length-append xs (d ∷ ys),
      length-append xs (d' ∷ ys),
      checksum-append parity 0 xs d ys,
      checksum-append parity 0 xs d' ys,
      luhn_term-injective doubles d d' l l' n,
      luhn_term-le doubles d l,
      luhn_term-le doubles d' l',
    )
