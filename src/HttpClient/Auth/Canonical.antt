-- ===== src/HttpClient/Auth/Canonical.antt =====
-- What a signature is bound to.
use resilience_kit.Prelude.{
  ℕ, Bool, true, false, [], ◌∷◌, ◌++◌, ◌==◌, ◌≡◌, refl, ap, ap₂, if◌then◌else◌, arith,
}
use resilience_kit.HttpClient.Auth.{Bytes, Signed, canonical}

-- No byte is a line feed.
abbrev pub is_line : Bytes → Bool
is_line [] = true
is_line (b ∷ bs) = let rest = is_line bs in if b == 10 then false else rest

abbrev head_of : Bytes → ℕ
head_of [] = 0
head_of (b ∷ bs) = b

abbrev tail_of : Bytes → Bytes
tail_of [] = []
tail_of (b ∷ bs) = bs

-- Texts that end at their first line feed are told apart by it.
line_split :
    (xs ys rest rest' : Bytes)
    → is_line xs ≡ true
    → is_line ys ≡ true
    → xs ++ 10 ∷ rest ≡ ys ++ 10 ∷ rest'
    → (xs ≡ ys) × (rest ≡ rest')
line_split [] [] rest rest' h k same = (refl, ap tail_of same)
line_split [] (y ∷ ys) rest rest' h k same = ground (arith, k, ap head_of same)
line_split (x ∷ xs) [] rest rest' h k same = ground (arith, h, ap head_of same)
line_split (x ∷ xs) (y ∷ ys) rest rest' h k same =
    let (tails, rests) =
      line_split xs ys rest rest' (ground (arith, h)) (ground (arith, k)) (ap tail_of same) in
    (ap₂ (λ b bs. b ∷ bs) (ap head_of same) tails, rests)

-- Where methods, paths and time stamps hold no line feed, two requests with one text to sign agree
-- in the method, the path, the time stamp and the body.
pub canonical_binds :
    (a b : Signed)
    → (is_line a.request.method ≡ true) × (is_line b.request.method ≡ true)
    → (is_line a.request.raw_path ≡ true) × (is_line b.request.raw_path ≡ true)
    → (is_line a.timestamp ≡ true) × (is_line b.timestamp ≡ true)
    → canonical a ≡ canonical b
    → a ≡ b
unfolding canonical
canonical_binds a b methods paths stamps same =
    let (method, after) =
      line_split a.request.method b.request.method
        (a.request.raw_path ++ 10 ∷ (a.timestamp ++ 10 ∷ a.request.content))
        (b.request.raw_path ++ 10 ∷ (b.timestamp ++ 10 ∷ b.request.content)) methods.0 methods.1
        same in
    let (path, later) =
      line_split a.request.raw_path b.request.raw_path (a.timestamp ++ 10 ∷ a.request.content)
        (b.timestamp ++ 10 ∷ b.request.content) paths.0 paths.1 after in
    let (stamp, body) =
      line_split a.timestamp b.timestamp a.request.content b.request.content stamps.0 stamps.1
        later in
    cc
