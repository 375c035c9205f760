-- ===== src/Codec/Uvarint.antt =====
-- The unsigned varints of Go's encoding/binary: seven bits a byte, lowest group first.
use realtime_go.Common.{
  ℕ, zero, suc, ◌+◌, ◌-◌, ◌*◌, ◌/◌, ◌%◌, ◌^◌, ◌≤◌, ◌<◌, ◌≡◌, ◌&&◌, Option, none, some, [], ◌∷◌,
  ◌++◌, Bytes, length, All, arith, ltb, ◌==◌, if◌then◌else◌, Option-cases, inl, inr,
}
use mathlib.Core.Option
use native.Mathlib.Nat.{pow-suc, one-le-pow}

-- A uint64.
abbrev pub IsU64 : ℕ → Type 0
IsU64 v = v < 2 ^ 64

abbrev pub IsByte : ℕ → Type 0
IsByte b = b < 256

-- `k` is how many groups may still follow the one that is written.
put_groups : ℕ → ℕ → Bytes
put_groups zero v = (v % 256) ∷ []
put_groups (suc k) v =
    if ltb v 128 then (v % 256) ∷ [] else (v % 128 + 128) ∷ put_groups k (v / 128)

-- What binary.AppendUvarint appends.
unfoldable pub put_uvarint : ℕ → Bytes
unfolding put_groups
put_uvarint v = put_groups 9 v

-- The low seven bits of `b` join the number that the following bytes hold.
abbrev join_group : ℕ → ℕ × Bytes → ℕ × Bytes
join_group b (v, rest) = (b - 128 + 128 * v, rest)

-- `k` is how many bytes may still be read: the tenth may only be 0 or 1.
get_groups : ℕ → Bytes → Option (ℕ × Bytes)
get_groups zero src = none
get_groups (suc k) [] = none
get_groups (suc k) (b ∷ src) =
    let more = Option.map (join_group b) (get_groups k src) in
    if ltb b 128 then (if k == 0 && ltb 1 b then none else some (b, src)) else more

-- binary.Uvarint: the number and the bytes behind it, or `none` where it reports n <= 0.
unfoldable pub get_uvarint : Bytes → Option (ℕ × Bytes)
unfolding get_groups
get_uvarint src = get_groups 10 src

get_groups-put_groups :
    (k v : ℕ) (rest : Bytes)
    → v < 2 * 128 ^ k
    → get_groups (suc k) (put_groups k v ++ rest) ≡ some (v, rest)
unfolding get_groups put_groups
get_groups-put_groups zero v rest h = ground arith
get_groups-put_groups (suc k) v rest h =
    ground
      (arith, pow-suc 128 k, get_groups-put_groups k (v / 128) rest (omega (arith, pow-suc 128 k)))

-- Reading gives back the uint64 that was written, and what follows it.
pub get_uvarint-put_uvarint :
    (v : ℕ) (rest : Bytes) → IsU64 v → get_uvarint (put_uvarint v ++ rest) ≡ some (v, rest)
unfolding get_uvarint put_uvarint
get_uvarint-put_uvarint v rest h = get_groups-put_groups 9 v rest (omega arith)

put_groups_shape :
    (k v : ℕ)
    → All IsByte (put_groups k v)
      × (1 ≤ length (put_groups k v))
      × (length (put_groups k v) ≤ k + 1)
unfolding put_groups
put_groups_shape zero v = omega arith
put_groups_shape (suc k) v = ground (arith, put_groups_shape k (v / 128))

pub put_uvarint_shape :
    (v : ℕ)
    → All IsByte (put_uvarint v) × (1 ≤ length (put_uvarint v)) × (length (put_uvarint v) ≤ 10)
unfolding put_uvarint
put_uvarint_shape v = put_groups_shape 9 v

-- `get_groups` takes bytes off the front, and its number fits the bytes that it may read.
get_groups_takes :
    (k : ℕ) (src : Bytes) (v : ℕ) (rest : Bytes)
    → All IsByte src
    → get_groups (suc k) src ≡ some (v, rest)
    → (v < 2 * 128 ^ k) × (length rest < length src) × All IsByte rest
unfolding get_groups
get_groups_takes k [] v rest h e = cc
get_groups_takes zero (b ∷ src) v rest h e = ground arith
get_groups_takes (suc k) (b ∷ src) v rest h e = elim (Option-cases (get_groups (suc k) src)) [
  | inl short ↦ ground (arith, pow-suc 128 k, one-le-pow k 128 (omega arith))
  | inr ((v', rest'), more) ↦
      ground (arith, pow-suc 128 k, get_groups_takes k src v' rest' h.1 more)
]

-- A read that succeeds gives a uint64 and takes at least one byte off the front.
pub get_uvarint_takes :
    (src : Bytes) (v : ℕ) (rest : Bytes)
    → All IsByte src
    → get_uvarint src ≡ some (v, rest)
    → IsU64 v × (length rest < length src) × All IsByte rest
unfolding get_uvarint
get_uvarint_takes src v rest h e = ground (arith, get_groups_takes 9 src v rest h e)

get_groups-append :
    (k : ℕ) (src more : Bytes) (v : ℕ) (rest : Bytes)
    → get_groups k src ≡ some (v, rest)
    → get_groups k (src ++ more) ≡ some (v, rest ++ more)
unfolding get_groups
get_groups-append zero src more v rest e = cc
get_groups-append (suc k) [] more v rest e = cc
get_groups-append (suc k) (b ∷ src) more v rest e = elim (Option-cases (get_groups k src)) [
  | inl short ↦ ground arith
  | inr ((v', rest'), found) ↦ ground (arith, get_groups-append k src more v' rest' found)
]

-- A read does not look past the number.
pub get_uvarint-append :
    (src more : Bytes) (v : ℕ) (rest : Bytes)
    → get_uvarint src ≡ some (v, rest)
    → get_uvarint (src ++ more) ≡ some (v, rest ++ more)
unfolding get_uvarint
get_uvarint-append = get_groups-append 10

get_groups_shorter :
    (k : ℕ) (src : Bytes) (v : ℕ) (rest : Bytes)
    → get_groups k src ≡ some (v, rest)
    → length rest < length src
unfolding get_groups
get_groups_shorter zero src v rest e = cc
get_groups_shorter (suc k) [] v rest e = cc
get_groups_shorter (suc k) (b ∷ src) v rest e = elim (Option-cases (get_groups k src)) [
  | inl short ↦ ground arith
  | inr ((v', rest'), found) ↦ ground (arith, get_groups_shorter k src v' rest' found)
]

pub get_uvarint_shorter :
    (src : Bytes) (v : ℕ) (rest : Bytes)
    → get_uvarint src ≡ some (v, rest)
    → length rest < length src
unfolding get_uvarint
get_uvarint_shorter = get_groups_shorter 10
