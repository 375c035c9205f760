-- ===== src/Codec/Reads.antt =====
-- `Reads m bytes a`: from any buffer that begins with `bytes` the action `m` takes exactly these,
-- without an error, and its result is `a`. One rule for each way to build an action.
use realtime_go.Common.{
  ℕ, ◌≤◌, ◌≡◌, refl, subst, [], ◌∷◌, ◌++◌, append_assoc, Bytes, length, length-append,
  take-length_append, drop-length_append, arith,
}
use realtime_go.Codec.Uvarint.{IsU64, put_uvarint, put_uvarint_shape, get_uvarint-put_uvarint}
use realtime_go.Codec.Reader.{
  BinReader, Read, reader, pure, ◌>>=◌, byte, uvarint, slice_of, slice, str, json_field, bounded,
}

pub record Reads {ℓ} {A : Type ℓ} (m : Read A) (bytes : Bytes) (a : A) : Type ℓ where
  pub runs : (rest : Bytes) → m (reader (bytes ++ rest)) ≡ (a, reader rest)

-- A string whose length is a uint64, as that of every Go string is.
abbrev pub IsField : Bytes → Type 0
IsField s = IsU64 (length s)

-- A length-prefixed field.
unfoldable pub field : Bytes → Bytes
field s = put_uvarint (length s) ++ s

module _ {ℓ} {A : Type ℓ} where
  pub Reads-pure : (a : A) → Reads (pure a) [] a
  unfolding pure
  Reads-pure a = record { runs = λ rest. refl }

  -- The result may be written in another way.
  pub Reads-eq : {m : Read A} {bytes : Bytes} {a b : A} → a ≡ b → Reads m bytes a → Reads m bytes b
  Reads-eq {m} {bytes} e h = subst (Reads m bytes) e h

  pub Reads-bounded :
      {m : Read A} {bytes : Bytes} {a : A} (count : ℕ) (limit : BinReader → ℕ) (early : A)
      → ((rest : Bytes) → count ≤ limit (reader (bytes ++ rest)))
      → Reads m bytes a
      → Reads (bounded count limit early m) bytes a
  unfolding bounded
  Reads-bounded {m} {bytes} {a} count limit early fits h = record {
    runs = λ rest. ground (arith, fits rest, h.runs rest);
  }

module _ {A B : Type 0} where
  -- First `xs` for `m`, then `ys` for what follows.
  pub Reads-bind :
      (m : Read A) (f : A → Read B) {xs ys : Bytes} {a : A} {b : B}
      → Reads m xs a
      → Reads (f a) ys b
      → Reads (m >>= f) (xs ++ ys) b
  unfolding ◌>>=◌
  Reads-bind m f {xs} {ys} {a} {b} h k = record {
    runs = λ rest. rw (append_assoc xs ys rest, h.runs (ys ++ rest)) (k.runs rest);
  }

  -- The last read of a record.
  pub Reads-last :
      (m : Read A) {xs : Bytes} {a : A} (f : A → B)
      → Reads m xs a
      → Reads (m >>= λ x. pure (f x)) xs (f a)
  unfolding ◌>>=◌ pure
  Reads-last m f h = record { runs = λ rest. rw (h.runs rest) }

pub Reads-byte :
    {B : Type 0} (f : ℕ → Read B) {ys : Bytes} {c : B} (b : ℕ)
    → Reads (f b) ys c
    → Reads (byte >>= f) (b ∷ ys) c
unfolding ◌>>=◌ byte
Reads-byte f b h = record { runs = h.runs }

pub Reads-uvarint : (v : ℕ) → IsU64 v → Reads uvarint (put_uvarint v) v
unfolding uvarint
Reads-uvarint v h = record { runs = λ rest. rw (get_uvarint-put_uvarint v rest h, uvarint) }

Reads-slice_of : (s : Bytes) → Reads (slice_of (length s)) s s
unfolding slice_of
Reads-slice_of s = record {
  runs = λ rest.
      ground (arith, length-append s rest, take-length_append s rest, drop-length_append s rest);
}

pub Reads-slice : (s : Bytes) → IsField s → Reads slice (field s) s
unfolding slice field
Reads-slice s h = Reads-bind uvarint _ (Reads-uvarint (length s) h) (Reads-slice_of s)

pub Reads-str : (s : Bytes) → IsField s → Reads str (field s) s
unfolding str
Reads-str = Reads-slice

pub Reads-json_field : (s : Bytes) → IsField s → Reads json_field (field s) s
unfolding json_field
Reads-json_field = Reads-slice

-- The same rules for each kind of field, with the value read off the bytes.
module _ {B : Type 0} where
  pub Reads-uvarint_then :
      (f : ℕ → Read B) (v : ℕ) {ys : Bytes} {b : B}
      → IsU64 v
      → Reads (f v) ys b
      → Reads (uvarint >>= f) (put_uvarint v ++ ys) b
  Reads-uvarint_then f v h = Reads-bind uvarint f (Reads-uvarint v h)

  pub Reads-str_then :
      (f : Bytes → Read B) (s : Bytes) {ys : Bytes} {b : B}
      → IsField s
      → Reads (f s) ys b
      → Reads (str >>= f) (field s ++ ys) b
  Reads-str_then f s h = Reads-bind str f (Reads-str s h)

  pub Reads-json_field_then :
      (f : Bytes → Read B) (s : Bytes) {ys : Bytes} {b : B}
      → IsField s
      → Reads (f s) ys b
      → Reads (json_field >>= f) (field s ++ ys) b
  Reads-json_field_then f s h = Reads-bind json_field f (Reads-json_field s h)

pub ruleset reads_rules =
    (Reads-pure, Reads-byte, Reads-uvarint_then, Reads-str_then, Reads-json_field_then)

pub length-field : (s : Bytes) → 1 ≤ length (field s)
unfolding field
length-field s =
    omega (arith, length-append (put_uvarint (length s)) s, put_uvarint_shape (length s))
