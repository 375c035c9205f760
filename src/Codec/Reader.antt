-- ===== src/Codec/Reader.antt =====
-- binary.go: `binReader`, the cursor that a decoder reads from. A method is an action that takes
-- the reader and gives back its result and the reader that it leaves.
use realtime_go.Common.{
  ℕ, Bool, true, false, ◌||◌, Option, none, some, List, [], ◌∷◌, Bytes, length, take, drop, ltb,
  if◌then◌else◌,
}
use realtime_go.Codec.Uvarint.{get_uvarint}

-- The errors that the codec reports.
pub data Error : Type 0 where
  truncated : Error
  unknown_opcode : ℕ → Error

pub data Result {ℓ} (A : Type ℓ) : Type ℓ where
  ok : A → Result A
  err : Error → Result A

pub record BinReader : Type 0 where
  pub buf : Bytes
  pub err : Option Error

abbrev pub Read {ℓ} : Type ℓ → Type ℓ
Read A = BinReader → A × BinReader

module _ {ℓ} {A : Type ℓ} where
  unfoldable pub pure : A → Read A
  pure a r = (a, r)

module _ {ℓ} {A B : Type ℓ} where
  infixl 5 ◌>>=◌ ◌>>◌
  unfoldable pub ◌>>=◌ : Read A → (A → Read B) → Read B
  ◌>>=◌ m f r = let (a, r') = m r in f a r'

  abbrev pub ◌>>◌ : Read A → Read B → Read B
  m >> n = m >>= λ _. n

abbrev is_some {ℓ} : {A : Type ℓ} → Option A → Bool
is_some none = false
is_some (some a) = true

-- `&binReader{buf: buf}`
abbrev pub reader : Bytes → BinReader
reader buf = record { buf = buf; err = none }

-- `r.err = errTruncated`
abbrev pub fail_reader : BinReader → BinReader
fail_reader r = record r { err = some truncated }

-- `len(buf) == 0`
abbrev pub is_empty {ℓ} : {A : Type ℓ} → List A → Bool
is_empty [] = true
is_empty (x ∷ xs) = false

unfoldable pub done : BinReader → Bool
done r = is_empty r.buf || is_some r.err

unfoldable pub byte : Read ℕ
byte r = elim r.err [
  | some e ↦ (0, r)
  | none ↦ elim r.buf [ [] ↦ (0, fail_reader r) | b ∷ rest ↦ (b, record r { buf = rest }) ]
]

unfoldable pub uvarint : Read ℕ
uvarint r = elim r.err [
  | some e ↦ (0, r)
  | none ↦ elim (get_uvarint r.buf) [
    | none ↦ (0, fail_reader r)
    | some (value, rest) ↦ (value, record r { buf = rest })
  ]
]

-- The rest of `slice`, once the length is read.
unfoldable pub slice_of : ℕ → Read Bytes
slice_of n r = elim r.err [
  | some e ↦ ([], r)
  | none ↦
      if ltb (length r.buf) n
      then ([], fail_reader r)
      else (take n r.buf, record r { buf = drop n r.buf })
]

unfoldable pub slice : Read Bytes
unfolding slice_of
slice = do n ← uvarint; slice_of n

unfoldable pub str : Read Bytes
unfolding slice
str = slice

-- Empty bytes are an absent payload, which is the same list here; the copy is not modelled.
unfoldable pub json_field : Read Bytes
unfolding slice
json_field = slice

-- `if count > limit { reader.err = errTruncated; return early }`, and the rest otherwise.
unfoldable pub bounded {ℓ} : {A : Type ℓ} → ℕ → (BinReader → ℕ) → A → Read A → Read A
bounded count limit early rest r = if ltb (limit r) count then (early, fail_reader r) else rest r
