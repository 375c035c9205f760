-- ===== src/Emitter/Chosen.antt =====
-- emitter.go: the listeners of one target, in the list of registrations and in the maps.
use realtime_go.Common.{
  ℕ, ◌+◌, ◌≤◌, ◌<◌, ◌≡◌, refl, sym, ap, subst, ◌↔◌, inl, inr, Bool, true, false, Option, List, [],
  ◌∷◌, ◌++◌, arith, All, if◌then◌else◌, Bool-cases,
}
use realtime_go.Emitter.{
  Registration, ListenerMap, listeners_for, change_listeners, has_event, add_listener,
}
use realtime_go.Emitter.Matching.{matches, matches→eq, matches_apart, same_apart}
use realtime_go.Emitter.Sorting.{keep}
use realtime_go.Emitter.Registry.{Entry, chosen, keep_for}

module _ {E F : Type 0} (same : E → E → Bool)
    (same_iff : (a b : E) → (same a b ≡ true) ↔ (a ≡ b)) where
  pub listeners_for-change_listeners :
      (ev t : E) (f : ListenerMap F → ListenerMap F) (bs : List (E × ListenerMap F))
      → (has_event same t bs ≡ false → f [] ≡ [])
      → listeners_for same ev (change_listeners same t f bs)
        ≡ (if same ev t then f (listeners_for same ev bs) else listeners_for same ev bs)
  unfolding listeners_for change_listeners has_event
  listeners_for-change_listeners ev t f [] h = elim (Bool-cases (same ev t)) [
    | inl c ↦ rw c (sym (h refl))
    | inr c ↦ rw c refl
  ]
  listeners_for-change_listeners ev t f (b ∷ bs) h = elim (Bool-cases (same t b.0)) [
    | inl c ↦
        let at_key : same ev t ≡ same ev b.0 = ap (same ev) ((same_iff t b.0).0 c) in
        rw (c, at_key) (elim (Bool-cases (same ev b.0)) [ inl d ↦ rw d refl | inr d ↦ rw d refl ])
    | inr c ↦
        let rest =
          listeners_for-change_listeners ev t f bs
            (λ (g : has_event same t bs ≡ false). h (rw (c, g) refl)) in
        rw c (elim (Bool-cases (same ev b.0)) [
          | inl d ↦ rw (d, same_apart same same_iff ev t b.0 d c) refl
          | inr d ↦ rw d rest
        ])
  ]

  pub keep_hit :
      (b q : Bool) (u : Option E) (p : ℕ × Registration F → Bool) (r : Entry E F)
      (kept : List (Entry E F)) (all : ListenerMap F)
      → p (r.id, r.listener) ≡ q
      → matches same u r.event ≡ b
      → chosen same u kept ≡ (if b then keep p all else all)
      → chosen same u (if q then r ∷ kept else kept) ≡ (
          if b
          then keep p (if b then (r.id, r.listener) ∷ all else all)
          else if b
          then (r.id, r.listener) ∷ all
          else all)
  keep_hit true true u p r kept all e m h = rw (e, m, h) refl
  keep_hit true false u p r kept all e m h = rw e h
  keep_hit false true u p r kept all e m h = rw (m, h) refl
  keep_hit false false u p r kept all e m h = h

  pub keep_miss :
      (a b : Bool) (l : ℕ × Registration F) (p : ℕ × Registration F → Bool)
      (kept all : ListenerMap F)
      → (a ≡ true → b ≡ false)
      → kept ≡ (if b then keep p all else all)
      → (if a then l ∷ kept else kept)
        ≡ (if b then keep p (if a then l ∷ all else all) else if a then l ∷ all else all)
  keep_miss true true l p kept all n h = absurd (grind (arith, n refl))
  keep_miss true false l p kept all n h = ap (◌∷◌ l) h
  keep_miss false true l p kept all n h = h
  keep_miss false false l p kept all n h = h

  pub chosen-keep_for :
      (u t : Option E) (p : ℕ × Registration F → Bool) (rs : List (Entry E F))
      → chosen same u (keep_for same t p rs)
        ≡ (if matches same u t then keep p (chosen same u rs) else chosen same u rs)
  chosen-keep_for u t p [] = elim (Bool-cases (matches same u t)) [
    | inl c ↦ rw c refl
    | inr c ↦ rw c refl
  ]
  chosen-keep_for u t p (r ∷ rs) =
      let rest = chosen-keep_for u t p rs in
      elim (Bool-cases (matches same t r.event)) [
        | inl m ↦
            let hit : matches same u r.event ≡ matches same u t =
              ap (matches same u) (sym (matches→eq same same_iff t r.event m)) in
            rw (m, hit)
              (keep_hit (matches same u t) (p (r.id, r.listener)) u p r (keep_for same t p rs)
                (chosen same u rs) refl hit rest)
        | inr m ↦ rw m (
            keep_miss (matches same u r.event) (matches same u t) (r.id, r.listener) p
              (chosen same u (keep_for same t p rs)) (chosen same u rs)
              (λ (d : matches same u r.event ≡ true). matches_apart same same_iff u t r.event d m)
              rest)
      ]

  pub snoc_chosen :
      (a b : Bool) (l r : ℕ × Registration F) (kept rest : ListenerMap F)
      → rest ≡ (if b then kept ++ r ∷ [] else kept)
      → (if a then l ∷ rest else rest)
        ≡ (if b then (if a then l ∷ kept else kept) ++ r ∷ [] else if a then l ∷ kept else kept)
  snoc_chosen true true l r kept rest h = ap (◌∷◌ l) h
  snoc_chosen true false l r kept rest h = ap (◌∷◌ l) h
  snoc_chosen false true l r kept rest h = h
  snoc_chosen false false l r kept rest h = h

  pub chosen-append :
      (u : Option E) (rs : List (Entry E F)) (r : Entry E F)
      → chosen same u (rs ++ r ∷ []) ≡ (
          if matches same u r.event
          then chosen same u rs ++ (r.id, r.listener) ∷ []
          else chosen same u rs)
  chosen-append u [] r = refl
  chosen-append u (x ∷ rs) r =
      snoc_chosen (matches same u x.event) (matches same u r.event) (x.id, x.listener)
        (r.id, r.listener) (chosen same u rs) (chosen same u (rs ++ r ∷ [])) (chosen-append u rs r)

  pub chosen_below :
      (u : Option E) (n : ℕ) (rs : List (Entry E F))
      → All (λ r. r.id ≤ n) rs
      → All (λ l. l.0 < n + 1) (chosen same u rs)
  chosen_below u n [] h = tt
  chosen_below u n (r ∷ rs) (h, hs) = elim (Bool-cases (matches same u r.event)) [
    | inl m ↦ rw m (omega arith, chosen_below u n rs hs)
    | inr m ↦ rw m (chosen_below u n rs hs)
  ]

  pub keep_for_below :
      (t : Option E) (p : ℕ × Registration F → Bool) (n : ℕ) (rs : List (Entry E F))
      → All (λ r. r.id ≤ n) rs
      → All (λ r. r.id ≤ n) (keep_for same t p rs)
  keep_for_below t p n [] h = tt
  keep_for_below t p n (r ∷ rs) (h, hs) =
      let rest = keep_for_below t p n rs hs in
      elim (Bool-cases (matches same t r.event)) [
        | inr m ↦ rw m (h, rest)
        | inl m ↦ rw m (elim (Bool-cases (p (r.id, r.listener))) [
          | inl e ↦ rw e (h, rest)
          | inr e ↦ rw e rest
        ])
      ]

  pub entries_mono :
      (n : ℕ) (rs : List (Entry E F)) → All (λ r. r.id ≤ n) rs → All (λ r. r.id ≤ n + 1) rs
  entries_mono n [] h = tt
  entries_mono n (r ∷ rs) (h, hs) = (omega arith, entries_mono n rs hs)

  pub listeners_for_missing :
      (ev : E) (bs : List (E × ListenerMap F))
      → has_event same ev bs ≡ false
      → listeners_for same ev bs ≡ []
  unfolding listeners_for has_event
  listeners_for_missing ev [] h = refl
  listeners_for_missing ev (b ∷ bs) h = elim (Bool-cases (same ev b.0)) [
    | inl c ↦ absurd (grind (arith, c, h))
    | inr c ↦ rw c (listeners_for_missing ev bs (rw c at h))
  ]

  pub listeners_for_new :
      (ev t : E) (l : ℕ × Registration F) (bs : List (E × ListenerMap F))
      → has_event same t bs ≡ false
      → listeners_for same ev ((t, l ∷ []) ∷ bs)
        ≡ (if same ev t then l ∷ listeners_for same ev bs else listeners_for same ev bs)
  unfolding listeners_for
  listeners_for_new ev t l bs h = elim (Bool-cases (same ev t)) [
    | inl g ↦
        let none_yet : listeners_for same ev bs ≡ [] =
          listeners_for_missing ev bs
            (subst (λ k. has_event same k bs ≡ false) (sym ((same_iff ev t).0 g)) h) in
        rw g (ap (◌∷◌ l) (sym none_yet))
    | inr g ↦ rw g refl
  ]

  pub listeners_for-add_listener :
      (ev t : E) (l : ℕ × Registration F) (bs : List (E × ListenerMap F))
      → listeners_for same ev (add_listener same t l bs)
        ≡ (if same ev t then l ∷ listeners_for same ev bs else listeners_for same ev bs)
  unfolding add_listener
  listeners_for-add_listener ev t l bs = elim (Bool-cases (has_event same t bs)) [
    | inl h ↦ rw h (
        listeners_for-change_listeners ev t (λ ls. l ∷ ls) bs
          (λ (g : has_event same t bs ≡ false). absurd (grind (arith, g, h))))
    | inr h ↦ rw h (listeners_for_new ev t l bs h)
  ]
