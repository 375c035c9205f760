-- ===== src/Common/Maps.antt =====
-- Go maps as association lists with each key once, and sets as lists.
use realtime_go.Common.{
  ℕ, suc, ◌+◌, ◌≤◌, ◌≡◌, ◌↔◌, refl, sym, ap, ◌∙◌, inl, inr, Bool, true, false, Option, none, some,
  List, [], ◌∷◌, ◌++◌, arith, if◌then◌else◌, Bool-cases,
}

module _ {K : Type 0} (same : K → K → Bool) where
  -- The map's own test of a key in a list of keys.
  unfoldable pub member : K → List K → Bool
  member k [] = false
  member k (j ∷ js) = if same k j then true else member k js

  unfoldable pub discard : K → List K → List K
  discard k [] = []
  discard k (j ∷ js) = let rest = discard k js in if same k j then rest else j ∷ rest

  -- How often a key stands in a list.
  unfoldable pub count : K → List K → ℕ
  count k [] = 0
  count k (j ∷ js) = if same k j then suc (count k js) else count k js

  pub count-append : (k : K) (xs ys : List K) → count k (xs ++ ys) ≡ count k xs + count k ys
  unfolding count
  count-append k [] ys = omega arith
  count-append k (x ∷ xs) ys = ground (arith, count-append k xs ys)

  pub count_absent : (k : K) (js : List K) → member k js ≡ false → count k js ≡ 0
  unfolding count member
  count_absent k [] h = refl
  count_absent k (j ∷ js) h = elim (Bool-cases (same k j)) [
    | inl e ↦ ground (arith, e, h)
    | inr e ↦ rw e (count_absent k js (rw e at h))
  ]

  module _ (same_iff : (a b : K) → (same a b ≡ true) ↔ (a ≡ b)) where
    pub same_apart : (a b c : K) → same a c ≡ true → same b c ≡ false → same a b ≡ false
    same_apart a b c h n = elim (Bool-cases (same a b)) [
      | inl g ↦
          let hit : same b c ≡ true =
            (same_iff b c).1 (sym ((same_iff a b).0 g) ∙ (same_iff a c).0 h) in
          absurd (grind (arith, hit, n))
      | inr g ↦ g
    ]

    pub same_other : (a b c : K) → same a b ≡ false → same b c ≡ true → same a c ≡ false
    same_other a b c n h = elim (Bool-cases (same a c)) [
      | inl g ↦
          let hit : same a b ≡ true =
            (same_iff a b).1 ((same_iff a c).0 g ∙ sym ((same_iff b c).0 h)) in
          absurd (grind (arith, hit, n))
      | inr g ↦ g
    ]

    pub count-discard :
        (k j : K) (js : List K) → count k (discard j js) ≡ (if same k j then 0 else count k js)
    unfolding count discard
    count-discard k j [] = ground arith
    count-discard k j (i ∷ js) =
        let rest = count-discard k j js in
        elim (Bool-cases (same j i)) [
          | inl e ↦ rw (e, sym ((same_iff j i).0 e)) (ground (arith, rest))
          | inr e ↦ rw e (elim (Bool-cases (same k i)) [
            | inl d ↦ rw (d, same_apart k j i d e) (ap suc (rw (same_apart k j i d e) at rest))
            | inr d ↦ rw d rest
          ])
        ]

    -- Taking another key out, or putting it in, leaves a key where it was.
    pub member-discard_other :
        (k j : K) (js : List K) → same k j ≡ false → member k (discard j js) ≡ member k js
    unfolding member discard
    member-discard_other k j [] n = refl
    member-discard_other k j (i ∷ js) n =
        let rest = member-discard_other k j js n in
        elim (Bool-cases (same j i)) [
          | inl e ↦ rw (e, same_other k j i n e) rest
          | inr e ↦ rw e (elim (Bool-cases (same k i)) [ inl d ↦ rw d refl | inr d ↦ rw d rest ])
        ]

    pub count_member : (k : K) (js : List K) → member k js ≡ true → 1 ≤ count k js
    unfolding count member
    count_member k [] h = cc
    count_member k (j ∷ js) h = elim (Bool-cases (same k j)) [
      | inl e ↦ rw e (omega arith)
      | inr e ↦ rw e (count_member k js (rw e at h))
    ]

    -- Taking a key out of a set that has it once.
    pub count_taken :
        (k j : K) (js : List K)
        → member j js ≡ true
        → count j js ≤ 1
        → (if same k j then 1 else 0) + count k (discard j js) ≡ count k js
    count_taken k j js m o =
        let at_least = count_member j js m in
        let left = count-discard k j js in
        elim (Bool-cases (same k j)) [
          | inl e ↦
              let k_is_j : count k js ≡ count j js = ap (λ i. count i js) ((same_iff k j).0 e) in
              rw e (omega (arith, rw e at left, k_is_j, at_least, o))
          | inr e ↦ rw e (omega (arith, rw e at left))
        ]

    -- Putting a new key in.
    pub count_put :
        (k j : K) (js : List K)
        → count j js ≡ 0
        → count k (j ∷ discard j js) ≡ (if same k j then 1 else 0) + count k js
    unfolding count
    count_put k j js n =
        let left = count-discard k j js in
        elim (Bool-cases (same k j)) [
          | inl e ↦
              let k_is_j : count k js ≡ count j js = ap (λ i. count i js) ((same_iff k j).0 e) in
              rw e (omega (arith, rw e at left, k_is_j, n))
          | inr e ↦ rw e (omega (arith, rw e at left))
        ]

abbrev pub keys : {K V : Type 0} → List (K × V) → List K
keys [] = []
keys (e ∷ es) = e.0 ∷ keys es

module _ {K V : Type 0} (same : K → K → Bool) where
  unfoldable pub find : K → List (K × V) → Option V
  find k [] = none
  find k (e ∷ es) = if same k e.0 then some e.1 else find k es

  -- `delete(m, k)`
  unfoldable pub delete : K → List (K × V) → List (K × V)
  delete k [] = []
  delete k (e ∷ es) = let rest = delete k es in if same k e.0 then rest else e ∷ rest

  -- `m[k] = v`
  abbrev pub insert : K → V → List (K × V) → List (K × V)
  insert k v m = (k, v) ∷ delete k m

  pub keys-delete : (k : K) (m : List (K × V)) → keys (delete k m) ≡ discard same k (keys m)
  unfolding delete discard
  keys-delete k [] = refl
  keys-delete k (e ∷ es) = elim (Bool-cases (same k e.0)) [
    | inl h ↦ rw h (keys-delete k es)
    | inr h ↦ rw h (ap (◌∷◌ e.0) (keys-delete k es))
  ]

  module _ (same_iff : (a b : K) → (same a b ≡ true) ↔ (a ≡ b)) where
    pub find-delete_other :
        (k j : K) (m : List (K × V)) → same k j ≡ false → find k (delete j m) ≡ find k m
    unfolding find delete
    find-delete_other k j [] n = refl
    find-delete_other k j (e ∷ es) n =
        let rest = find-delete_other k j es n in
        elim (Bool-cases (same j e.0)) [
          | inl h ↦ rw (h, same_other same same_iff k j e.0 n h) rest
          | inr h ↦ rw h (elim (Bool-cases (same k e.0)) [ inl d ↦ rw d refl | inr d ↦ rw d rest ])
        ]
