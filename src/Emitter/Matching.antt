-- ===== src/Emitter/Matching.antt =====
-- emitter.go: what a listener is registered for: every event, or one.
use realtime_go.Common.{
  ◌≡◌, refl, sym, ◌∙◌, ap, ◌↔◌, inl, inr, Bool, true, false, Option, none, some, arith, Bool-cases,
}

module _ {E : Type 0} (same : E → E → Bool) where
  abbrev pub matches : Option E → Option E → Bool
  matches none none = true
  matches none (some b) = false
  matches (some a) none = false
  matches (some a) (some b) = same a b

  module _ (same_iff : (a b : E) → (same a b ≡ true) ↔ (a ≡ b)) where
    pub matches→eq : (t u : Option E) → matches t u ≡ true → t ≡ u
    matches→eq none none h = refl
    matches→eq none (some b) h = cc
    matches→eq (some a) none h = cc
    matches→eq (some a) (some b) h = ap some ((same_iff a b).0 h)

    pub matches_apart :
        (u t v : Option E) → matches u v ≡ true → matches t v ≡ false → matches u t ≡ false
    matches_apart u t v d c = elim (Bool-cases (matches u t)) [
      | inl g ↦
          let hit : matches t v ≡ true = ap (λ w. matches w v) (sym (matches→eq u t g)) ∙ d in
          absurd (grind (arith, hit, c))
      | inr g ↦ g
    ]

    pub same_apart : (ev t k : E) → same ev k ≡ true → same t k ≡ false → same ev t ≡ false
    same_apart ev t k d c = matches_apart (some ev) (some t) (some k) d c
