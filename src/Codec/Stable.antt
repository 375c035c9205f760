-- ===== src/Codec/Stable.antt =====
-- `Stable m`: an error stays, and from a longer buffer `m` reads the same, unless the shorter one
-- was too short. One rule for each way to build an action.
use realtime_go.Common.{
  ℕ, zero, suc, ◌≤◌, ◌≡◌, refl, ap, sym, ◌∙◌, ◌⊎◌, inl, inr, Bool, true, false, some, [], ◌∷◌, ◌++◌,
  append-nil, Bytes, length, length-append, take, drop, arith, ltb, if◌then◌else◌, Option-cases,
  Bool-cases,
}
use realtime_go.Codec.Uvarint.{get_uvarint, get_uvarint-append}
use realtime_go.Codec.Reader.{
  truncated, BinReader, Read, reader, pure, ◌>>=◌, byte, uvarint, slice_of, slice, str, json_field,
  bounded,
}
use realtime_go.Codec.Reads.{Reads}

-- The buffer was too short, or what was read from it is read from any longer one.
abbrev pub Extends : {A : Type 0} → Read A → Bytes → Bytes → Type 0
Extends {A} m buf more =
    ((m (reader buf)).1.err ≡ some truncated)
    ⊎ ((a : A) × (rest : Bytes) × (m (reader buf) ≡ (a, reader rest))
        × (m (reader (buf ++ more)) ≡ (a, reader (rest ++ more))))

pub record Stable {A : Type 0} (m : Read A) : Type 0 where
  pub sticky : (r : BinReader) → r.err ≡ some truncated → (m r).1.err ≡ some truncated
  pub extends : (buf more : Bytes) → Extends m buf more

module _ {A : Type 0} where
  pub Stable-pure : (a : A) → Stable (pure a)
  unfolding pure
  Stable-pure a = record { sticky = λ r e. e; extends = λ buf more. inr (a, buf, refl, refl) }

  pub Stable-if : (b : Bool) (m n : Read A) → Stable m → Stable n → Stable (if b then m else n)
  Stable-if true m n hm hn = hm
  Stable-if false m n hm hn = hn

  -- A bound that grows with the buffer.
  pub Stable-bounded :
      (count : ℕ) (limit : BinReader → ℕ) (early : A) (m : Read A)
      → ((buf more : Bytes) → limit (reader buf) ≤ limit (reader (buf ++ more)))
      → Stable m
      → Stable (bounded count limit early m)
  unfolding bounded
  Stable-bounded count limit early m grows h = record {
    sticky = λ r e. elim (Bool-cases (ltb (limit r) count)) [
      | inl over ↦ rw over
      | inr within ↦ rw within (h.sticky r e)
    ];
    extends = λ buf more. elim (Bool-cases (ltb (limit (reader buf)) count)) [
      | inl over ↦ inl (rw over)
      | inr within ↦
          let also : ltb (limit (reader (buf ++ more))) count ≡ false =
            ground (arith, grows buf more) in
          rw (within, also) (h.extends buf more)
    ];
  }

module _ {A B : Type 0} where
  pub Stable-bind :
      (m : Read A) (f : A → Read B) → Stable m → ((a : A) → Stable (f a)) → Stable (m >>= f)
  unfolding ◌>>=◌
  Stable-bind m f hm hf = record {
    sticky = λ r e. (hf (m r).0).sticky (m r).1 (hm.sticky r e);
    extends = λ buf more. elim (hm.extends buf more) [
      | inl short ↦ inl ((hf (m (reader buf)).0).sticky (m (reader buf)).1 short)
      | inr (a, rest, e, e') ↦ elim ((hf a).extends rest more) [
        | inl short ↦ inl (rw (e, ◌>>=◌) short)
        | inr (b, rest', x, y) ↦ inr (b, rest', rw (e, ◌>>=◌) x, rw (e', ◌>>=◌) y)
      ]
    ];
  }

pub Stable-byte : Stable byte
unfolding byte
Stable-byte = record { sticky = λ r e. ground arith; extends = taken }
  where
    taken : (buf more : Bytes) → Extends byte buf more
    taken [] more = inl refl
    taken (b ∷ buf) more = inr (b, buf, refl, refl)

pub Stable-uvarint : Stable uvarint
unfolding uvarint
Stable-uvarint = record {
  sticky = λ r e. ground arith;
  extends = λ buf more. elim (Option-cases (get_uvarint buf)) [
    | inl short ↦ inl (rw (short, uvarint))
    | inr ((v, rest), e) ↦
        inr (v, rest, rw (e, uvarint), rw (get_uvarint-append buf more v rest e, uvarint))
  ];
}

take-append : (n : ℕ) (xs ys : Bytes) → n ≤ length xs → take n (xs ++ ys) ≡ take n xs
take-append zero xs ys h = refl
take-append (suc n) [] ys h = absurd (omega arith)
take-append (suc n) (x ∷ xs) ys h = ap (◌∷◌ x) (take-append n xs ys (omega arith))

drop-append : (n : ℕ) (xs ys : Bytes) → n ≤ length xs → drop n (xs ++ ys) ≡ drop n xs ++ ys
drop-append zero xs ys h = refl
drop-append (suc n) [] ys h = absurd (omega arith)
drop-append (suc n) (x ∷ xs) ys h = drop-append n xs ys (omega arith)

Stable-slice_of : (n : ℕ) → Stable (slice_of n)
unfolding slice_of
Stable-slice_of n = record {
  sticky = λ r e. ground arith;
  extends = λ buf more. elim (Bool-cases (ltb (length buf) n)) [
    | inl short ↦ inl (rw short)
    | inr long ↦
        let also : ltb (length (buf ++ more)) n ≡ false = ground (arith, length-append buf more) in
        let fits : n ≤ length buf = ground arith in
        inr (
          take n buf,
          drop n buf,
          rw long,
          rw (also, take-append n buf more fits, drop-append n buf more fits),
        )
  ];
}

pub Stable-slice : Stable slice
unfolding slice
Stable-slice = Stable-bind _ _ Stable-uvarint Stable-slice_of

pub Stable-str : Stable str
unfolding str
Stable-str = Stable-slice

pub Stable-json_field : Stable json_field
unfolding json_field
Stable-json_field = Stable-slice

pub ruleset stable_rules = (
  Stable-pure, Stable-if, Stable-bind, Stable-byte, Stable-uvarint, Stable-str, Stable-json_field,
)

-- An action that reads all of `front ++ x ∷ back` finds `front` too short.
pub Stable-truncated :
    {A : Type 0} {m : Read A} {a : A} (front : Bytes) (x : ℕ) (back : Bytes)
    → Stable m
    → Reads m (front ++ x ∷ back) a
    → (m (reader front)).1.err ≡ some truncated
Stable-truncated front x back s r = elim (s.extends front (x ∷ back)) [
  | inl short ↦ short
  | inr (b, rest, e, e') ↦ absurd (
      omega (
        arith,
        ap (λ p. length p.1.buf) (sym e' ∙ (rw append-nil at (r.runs []))),
        length-append rest (x ∷ back),
      ))
]
