-- ===== src/Auth/Keys.antt =====
-- auth.go: which keys are accepted, and how long tokens live.
use realtime_go.Common.{
  ℕ, ◌+◌, ◌-◌, ◌*◌, ◌/◌, ◌%◌, ltb, lt→ltb, ◌≤◌, ◌<◌, ◌^◌, ◌≡◌, refl, sym, ap, ap₂, ◌∙◌, ◌≢◌, ◌↔◌,
  inl, inr, true, false, Option, none, some, [], ◌∷◌, ◌++◌, Bytes, arith, ◌==◌, ==_iff, Bool-cases,
}
use realtime_go.Common.Int.{pos, int_of_u64}
use realtime_go.Common.Strings.{before_byte, cut_at, has_byte}
use realtime_go.Auth.{colon, dot, key_parts, checked_parts, split_api_key, lifetime}

cut_at-append :
    (b : ℕ) (front back : Bytes)
    → has_byte b front ≡ false
    → cut_at b (front ++ b ∷ back) ≡ some (front, back)
unfolding cut_at has_byte
cut_at-append b [] back h = rw ((==_iff b b).1 refl) refl
cut_at-append b (c ∷ front) back h = elim (Bool-cases (b == c)) [
  | inl e ↦ absurd (cc (rw e at h))
  | inr e ↦ rw (e, cut_at-append b front back (rw e at h)) refl
]

-- A key that is a name "app.id" with no colon in it, a colon and a secret is split into the two.
split_api_key-parts :
    (c d : ℕ) (name secret : Bytes)
    → has_byte colon (c ∷ name) ≡ false
    → has_byte dot (c ∷ name) ≡ true
    → split_api_key ((c ∷ name) ++ colon ∷ d ∷ secret) ≡ key_parts (c ∷ name) (d ∷ secret)
unfolding split_api_key
split_api_key-parts c d name secret h k =
    rw (cut_at-append colon (c ∷ name) (d ∷ secret) h) (rw k refl)

-- What an API key is: a name with a dot and no colon, a colon, and a secret.
pub record IsKey (key name secret : Bytes) : Type 0 where
  pub is_joined : key ≡ name ++ colon ∷ secret
  pub has_no_colon : has_byte colon name ≡ false
  pub has_dot : has_byte dot name ≡ true
  pub is_given : secret ≢ []

abbrev IsCut : ℕ → Bytes → Option (Bytes × Bytes) → Type 0
IsCut b s none = has_byte b s ≡ false
IsCut b s (some (front, back)) = (s ≡ front ++ b ∷ back) × (has_byte b front ≡ false)

IsCut-later :
    (b c : ℕ) (s : Bytes) (o : Option (Bytes × Bytes))
    → (b == c) ≡ false
    → IsCut b s o
    → IsCut b (c ∷ s) (before_byte c o)
unfolding has_byte
IsCut-later b c s none e h = rw e h
IsCut-later b c s (some (front, back)) e h = (ap (◌∷◌ c) h.0, rw e h.1)

cut_at-IsCut : (b : ℕ) (s : Bytes) → IsCut b s (cut_at b s)
unfolding cut_at has_byte
cut_at-IsCut b [] = refl
cut_at-IsCut b (c ∷ s) = elim (Bool-cases (b == c)) [
  | inl e ↦ rw e (ap (λ d. d ∷ s) (sym ((==_iff b c).0 e)), refl)
  | inr e ↦ rw e (IsCut-later b c s (cut_at b s) e (cut_at-IsCut b s))
]

checked-IsKey :
    (key name secret : Bytes) (o : Option (Bytes × Bytes))
    → IsCut colon key o
    → checked_parts o ≡ key_parts name secret
    → IsKey key name secret
checked-IsKey key name secret none h e = absurd (cc e)
checked-IsKey key name secret (some ([], back)) h e = absurd (cc e)
checked-IsKey key name secret (some (c ∷ front, [])) h e = absurd (cc e)
checked-IsKey key name secret (some (c ∷ front, d ∷ back)) h e =
    elim (Bool-cases (has_byte dot (c ∷ front))) [
      | inl k ↦
          let parts : key_parts (c ∷ front) (d ∷ back) ≡ key_parts name secret = rw k at e in
          let same_name : c ∷ front ≡ name = cc parts in
          let same_secret : d ∷ back ≡ secret = cc parts in
          record {
            is_joined = h.0 ∙ ap₂ (λ n t. n ++ colon ∷ t) same_name same_secret;
            has_no_colon = ap (has_byte colon) (sym same_name) ∙ h.1;
            has_dot = ap (has_byte dot) (sym same_name) ∙ k;
            is_given = λ empty. absurd (cc (same_secret, empty));
          }
      | inr k ↦ absurd (cc (rw k at e))
    ]

no_dot : has_byte dot [] ≡ false
unfolding has_byte
no_dot = refl

parts_of-IsKey :
    (key name secret : Bytes) → IsKey key name secret → split_api_key key ≡ key_parts name secret
parts_of-IsKey key [] secret h = absurd (cc (no_dot, h.has_dot))
parts_of-IsKey key (c ∷ name) [] h = absurd (h.is_given refl)
parts_of-IsKey key (c ∷ name) (d ∷ secret) h =
    ap split_api_key h.is_joined ∙ split_api_key-parts c d name secret h.has_no_colon h.has_dot

-- `splitAPIKey` accepts exactly the keys that are a name with a dot and no colon, a colon and a
-- secret, and gives that name and that secret.
pub split_api_key-IsKey :
    (key name secret : Bytes) → (split_api_key key ≡ key_parts name secret) ↔ IsKey key name secret
unfolding split_api_key
split_api_key-IsKey key name secret = (
  checked-IsKey key name secret (cut_at colon key) (cut_at-IsCut colon key),
  parts_of-IsKey key name secret,
)

-- For a positive lifetime of up to 292 years, less a second: the token lives for at least as long,
-- and for less than a second longer.
pub lifetime-bounds :
    (ttl : ℕ)
    → 0 < ttl
    → ttl + 1000000000 ≤ 2 ^ 63
    → (s : ℕ) × (lifetime ttl ≡ pos s)
      × (ttl ≤ s * 1000000000)
      × (s * 1000000000 < ttl + 1000000000)
unfolding lifetime int_of_u64
lifetime-bounds ttl h k =
    let sum : (ttl + 1000000000 - 1) % 2 ^ 64 ≡ ttl + 999999999 = omega (arith, h, k) in
    let in_range : ltb (ttl + 999999999) (2 ^ 63) ≡ true = lt→ltb _ _ (omega (arith, k)) in
    ((ttl + 999999999) / 1000000000, rw (sum, in_range) refl, omega (arith, h), omega (arith, h))
