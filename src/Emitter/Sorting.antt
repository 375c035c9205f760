-- ===== src/Emitter/Sorting.antt =====
-- emitter.go, `snapshotOrdered`: the order of the ids, whatever the order of the map.
use realtime_go.Common.{
  ℕ, ◌≤◌, ◌<◌, ◌≡◌, refl, sym, ◌∙◌, ap, inl, inr, Bool, true, false, not, [], ◌∷◌, ◌++◌, arith, All,
  leb, leb→le, ◌==◌, if◌then◌else◌, Bool-cases,
}
use realtime_go.Emitter.{Registration, ListenerMap, delete_id, insert_id, sort_ids, drop_once}

over : (a b : ℕ) → leb a b ≡ false → b ≤ a
over a b h = ground arith

module _ {F : Type 0} where
  abbrev IsAtLeast : ℕ → ListenerMap F → Type 0
  IsAtLeast n ls = All (λ l. n ≤ l.0) ls

  abbrev IsSorted : ListenerMap F → Type 0
  IsSorted [] = Unit {0}
  IsSorted (l ∷ ls) = IsAtLeast l.0 ls × IsSorted ls

  IsAtLeast-mono : (m n : ℕ) (ls : ListenerMap F) → m ≤ n → IsAtLeast n ls → IsAtLeast m ls
  IsAtLeast-mono m n [] h k = tt
  IsAtLeast-mono m n (l ∷ ls) h (k, ks) = (omega arith, IsAtLeast-mono m n ls h ks)

  insert_id-IsAtLeast :
      (n : ℕ) (x : ℕ × Registration F) (ls : ListenerMap F)
      → n ≤ x.0
      → IsAtLeast n ls
      → IsAtLeast n (insert_id x ls)
  unfolding insert_id
  insert_id-IsAtLeast n x [] h k = (h, tt)
  insert_id-IsAtLeast n x (l ∷ ls) h (k, ks) = elim (Bool-cases (leb x.0 l.0)) [
    | inl e ↦ rw e (h, (k, ks))
    | inr e ↦ rw e (k, insert_id-IsAtLeast n x ls h ks)
  ]

  insert_id-IsSorted :
      (x : ℕ × Registration F) (ls : ListenerMap F) → IsSorted ls → IsSorted (insert_id x ls)
  unfolding insert_id
  insert_id-IsSorted x [] s = (tt, tt)
  insert_id-IsSorted x (l ∷ ls) (s, ss) = elim (Bool-cases (leb x.0 l.0)) [
    | inl e ↦ rw e ((leb→le x.0 l.0 e, IsAtLeast-mono x.0 l.0 ls (leb→le x.0 l.0 e) s), (s, ss))
    | inr e ↦ rw e (insert_id-IsAtLeast l.0 x ls (over x.0 l.0 e) s, insert_id-IsSorted x ls ss)
  ]

  sort_ids-IsSorted : (ls : ListenerMap F) → IsSorted (sort_ids ls)
  unfolding sort_ids
  sort_ids-IsSorted [] = tt
  sort_ids-IsSorted (l ∷ ls) = insert_id-IsSorted l (sort_ids ls) (sort_ids-IsSorted ls)

  insert_id_first :
      (x : ℕ × Registration F) (ls : ListenerMap F) → IsAtLeast x.0 ls → insert_id x ls ≡ x ∷ ls
  unfolding insert_id
  insert_id_first x [] h = refl
  insert_id_first x (l ∷ ls) (h, hs) = ground arith

  -- A new id, above all others, goes last.
  pub insert_id_last :
      (x : ℕ × Registration F) (ls : ListenerMap F)
      → All (λ l. l.0 < x.0) ls
      → insert_id x ls ≡ ls ++ x ∷ []
  unfolding insert_id
  insert_id_last x [] h = refl
  insert_id_last x (l ∷ ls) (h, hs) =
      let rest = insert_id_last x ls hs in
      let later : leb x.0 l.0 ≡ false = ground arith in rw later (ap (◌∷◌ l) rest)

  -- The registrations that a test keeps.
  abbrev pub keep : (ℕ × Registration F → Bool) → ListenerMap F → ListenerMap F
  keep p [] = []
  keep p (l ∷ ls) = if p l then l ∷ keep p ls else keep p ls

  keep-IsAtLeast :
      (p : ℕ × Registration F → Bool) (n : ℕ) (ls : ListenerMap F)
      → IsAtLeast n ls
      → IsAtLeast n (keep p ls)
  keep-IsAtLeast p n [] h = tt
  keep-IsAtLeast p n (l ∷ ls) (h, hs) = elim (Bool-cases (p l)) [
    | inl e ↦ rw e (h, keep-IsAtLeast p n ls hs)
    | inr e ↦ rw e (keep-IsAtLeast p n ls hs)
  ]

  keep_early :
      (b : Bool) (x : ℕ × Registration F) (kept : ListenerMap F)
      → insert_id x kept ≡ x ∷ kept
      → (if b then x ∷ kept else kept) ≡ (if b then insert_id x kept else kept)
  keep_early true x kept first = sym first
  keep_early false x kept first = refl

  keep_late :
      (b c : Bool) (x l : ℕ × Registration F) (kept rest : ListenerMap F)
      → leb x.0 l.0 ≡ false
      → rest ≡ (if b then insert_id x kept else kept)
      → (if c then l ∷ rest else rest)
        ≡ (if b then insert_id x (if c then l ∷ kept else kept) else (if c then l ∷ kept else kept))
  unfolding insert_id
  keep_late true true x l kept rest e h = rw (e, h) refl
  keep_late true false x l kept rest e h = h
  keep_late false true x l kept rest e h = ap (◌∷◌ l) h
  keep_late false false x l kept rest e h = h

  keep-insert_id :
      (p : ℕ × Registration F → Bool) (x : ℕ × Registration F) (ls : ListenerMap F)
      → IsSorted ls
      → keep p (insert_id x ls) ≡ (if p x then insert_id x (keep p ls) else keep p ls)
  unfolding insert_id
  keep-insert_id p x [] s = refl
  keep-insert_id p x (l ∷ ls) (s, ss) = elim (Bool-cases (leb x.0 l.0)) [
    | inl e ↦
        let first : insert_id x (keep p (l ∷ ls)) ≡ x ∷ keep p (l ∷ ls) =
          insert_id_first x (keep p (l ∷ ls)) (
            keep-IsAtLeast p x.0 (l ∷ ls)
              (leb→le x.0 l.0 e, IsAtLeast-mono x.0 l.0 ls (leb→le x.0 l.0 e) s)) in
        rw e (keep_early (p x) x (keep p (l ∷ ls)) first)
    | inr e ↦ rw e (keep_late (p x) (p l) x l (keep p ls) _ e (keep-insert_id p x ls ss))
  ]

  pub sort_ids-keep :
      (p : ℕ × Registration F → Bool) (ls : ListenerMap F)
      → sort_ids (keep p ls) ≡ keep p (sort_ids ls)
  unfolding sort_ids
  sort_ids-keep p [] = refl
  sort_ids-keep p (l ∷ ls) =
      let whole = keep-insert_id p l (sort_ids ls) (sort_ids-IsSorted ls) in
      elim (Bool-cases (p l)) [
        | inl e ↦ rw e (ap (insert_id l) (sort_ids-keep p ls) ∙ sym (rw e at whole))
        | inr e ↦ rw e (sort_ids-keep p ls ∙ sym (rw e at whole))
      ]

  abbrev pub other_id : ℕ → ℕ × Registration F → Bool
  other_id id l = not (id == l.0)

  abbrev pub repeats : ℕ × Registration F → Bool
  repeats l = not l.1.once

  pub delete_id-keep : (id : ℕ) (ls : ListenerMap F) → delete_id id ls ≡ keep (other_id id) ls
  unfolding delete_id
  delete_id-keep id [] = refl
  delete_id-keep id (l ∷ ls) = ground (arith, delete_id-keep id ls)

  pub drop_once-keep : (ls : ListenerMap F) → drop_once ls ≡ keep repeats ls
  unfolding drop_once
  drop_once-keep [] = refl
  drop_once-keep (l ∷ ls) = ground (arith, drop_once-keep ls)
