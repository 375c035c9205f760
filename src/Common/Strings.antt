-- ===== src/Common/Strings.antt =====
-- Go strings, as bytes: equality, prefixes, and the position of a byte.
use realtime_go.Common.{
  ℕ, ◌≡◌, ◌↔◌, refl, subst, Bool, true, false, Option, none, some, [], ◌∷◌, Bytes, arith, ◌==◌,
  if◌then◌else◌,
}

-- `==` on strings.
unfoldable pub eq_bytes : Bytes → Bytes → Bool
eq_bytes [] [] = true
eq_bytes [] (y ∷ ys) = false
eq_bytes (x ∷ xs) [] = false
eq_bytes (x ∷ xs) (y ∷ ys) = if x == y then eq_bytes xs ys else false

pub eq_bytes_refl : (k : Bytes) → eq_bytes k k ≡ true
unfolding eq_bytes
eq_bytes_refl [] = refl
eq_bytes_refl (x ∷ k) = ground (arith, eq_bytes_refl k)

pub eq_bytes→eq : (k l : Bytes) → eq_bytes k l ≡ true → k ≡ l
unfolding eq_bytes
eq_bytes→eq [] [] h = refl
eq_bytes→eq [] (y ∷ l) h = ground arith
eq_bytes→eq (x ∷ k) [] h = ground arith
eq_bytes→eq (x ∷ k) (y ∷ l) h = grind (arith, eq_bytes→eq k l)

pub eq_bytes_iff : (k l : Bytes) → (eq_bytes k l ≡ true) ↔ (k ≡ l)
eq_bytes_iff k l = (eq_bytes→eq k l, λ e. subst (λ m. eq_bytes k m ≡ true) e (eq_bytes_refl k))

-- What follows a prefix, if the string has it: `strings.HasPrefix` and `strings.TrimPrefix`.
unfoldable pub after_prefix : Bytes → Bytes → Option Bytes
after_prefix [] s = some s
after_prefix (p ∷ ps) [] = none
after_prefix (p ∷ ps) (c ∷ s) = if p == c then after_prefix ps s else none

-- The parts before and after the first such byte: `strings.Index` and the two slices.
abbrev pub before_byte : ℕ → Option (Bytes × Bytes) → Option (Bytes × Bytes)
before_byte c none = none
before_byte c (some (front, back)) = some (c ∷ front, back)

unfoldable pub cut_at : ℕ → Bytes → Option (Bytes × Bytes)
cut_at b [] = none
cut_at b (c ∷ s) = let rest = before_byte c (cut_at b s) in if b == c then some ([], s) else rest

-- `strings.Contains` of one byte.
unfoldable pub has_byte : ℕ → Bytes → Bool
has_byte b [] = false
has_byte b (c ∷ s) = if b == c then true else has_byte b s
