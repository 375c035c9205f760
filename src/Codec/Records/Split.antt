-- ===== src/Codec/Records/Split.antt =====
-- Records written one after the other, and a tail that is cut off.
use realtime_go.Common.{
  ℕ, zero, suc, ◌≤◌, ◌<◌, ◌≡◌, refl, sym, ap, ◌∙◌, none, some, List, [], ◌∷◌, ◌++◌, append_assoc,
  append-nil, Bytes, length, length-append, take, drop, All, arith, ltb, Option-cases, Bool-cases,
  inl, inr, ◌⊎◌,
}
use realtime_go.Codec.Uvarint.{get_uvarint, get_uvarint_shorter}
use realtime_go.Codec.Reader.{truncated, reader, ◌>>=◌, uvarint, slice_of, slice, done}
use realtime_go.Codec.Reads.{IsField, field, Reads-slice, length-field}
use realtime_go.Codec.Stable.{Stable-slice, Stable-truncated}
use realtime_go.Codec.Writer.{frame_binary_record}
use realtime_go.Codec.Records.{split_loop, split_binary_records}

length-drop_le : (n : ℕ) (xs : Bytes) → length (drop n xs) ≤ length xs
length-drop_le zero xs = omega arith
length-drop_le (suc n) [] = omega arith
length-drop_le (suc n) (x ∷ xs) = omega (arith, length-drop_le n xs)

slice_of_cases :
    (n : ℕ) (buf : Bytes)
    → ((slice_of n (reader buf)).1.err ≡ some truncated)
      ⊎ ((rec rest : Bytes) × (slice_of n (reader buf) ≡ (rec, reader rest))
          × (length rest ≤ length buf))
unfolding slice_of
slice_of_cases n buf = elim (Bool-cases (ltb (length buf) n)) [
  | inl short ↦ inl (rw short)
  | inr long ↦ inr (take n buf, drop n buf, rw long, length-drop_le n buf)
]

slice_read :
    (buf : Bytes) {n : ℕ} {rest : Bytes}
    → get_uvarint buf ≡ some (n, rest)
    → slice (reader buf) ≡ slice_of n (reader rest)
unfolding slice ◌>>=◌
slice_read buf {n} {rest} e = ap (λ p. slice_of p.0 p.1) read
  where
    read : uvarint (reader buf) ≡ (n, reader rest)
    read = unfold uvarint in rw (e, uvarint)

slice_short : (buf : Bytes) → get_uvarint buf ≡ none → (slice (reader buf)).1.err ≡ some truncated
unfolding slice ◌>>=◌ slice_of uvarint
slice_short buf e = rw (e, uvarint)

-- A slice either fails or leaves a shorter buffer, with no error.
slice_cases :
    (buf : Bytes)
    → ((slice (reader buf)).1.err ≡ some truncated)
      ⊎ ((rec rest : Bytes) × (slice (reader buf) ≡ (rec, reader rest))
          × (length rest < length buf))
slice_cases buf = elim (Option-cases (get_uvarint buf)) [
  | inl short ↦ inl (slice_short buf short)
  | inr ((n, rest), e) ↦ elim (slice_of_cases n rest) [
    | inl short ↦ inl (rw (slice_read buf e) short)
    | inr (rec, rest', read, fewer) ↦
        inr (rec, rest', slice_read buf e ∙ read, omega (arith, get_uvarint_shorter buf n rest e))
  ]
]

loop_end : (fuel : ℕ) (records : List Bytes) → split_loop fuel (reader []) records ≡ some records
unfolding split_loop done
loop_end zero records = refl
loop_end (suc fuel) records = refl

loop_fail :
    (fuel b : ℕ) (buf : Bytes) (records : List Bytes)
    → (slice (reader (b ∷ buf))).1.err ≡ some truncated
    → split_loop (suc fuel) (reader (b ∷ buf)) records ≡ some records
unfolding split_loop done
loop_fail fuel b buf records e = rw e

loop_step :
    (fuel b : ℕ) (buf : Bytes) (records : List Bytes) {rec rest : Bytes}
    → slice (reader (b ∷ buf)) ≡ (rec, reader rest)
    → split_loop (suc fuel) (reader (b ∷ buf)) records
      ≡ split_loop fuel (reader rest) (records ++ rec ∷ [])
unfolding split_loop done
loop_step fuel b buf records e = rw e

-- With fuel for its buffer the loop ends by itself, and more fuel changes nothing.
split_loop_fuel :
    (fuel more : ℕ) (buf : Bytes) (records : List Bytes)
    → length buf ≤ fuel
    → length buf ≤ more
    → split_loop fuel (reader buf) records ≡ split_loop more (reader buf) records
split_loop_fuel fuel more [] records h k = loop_end fuel records ∙ sym (loop_end more records)
split_loop_fuel zero more (b ∷ buf) records h k = absurd (omega arith)
split_loop_fuel (suc fuel) zero (b ∷ buf) records h k = absurd (omega arith)
split_loop_fuel (suc fuel) (suc more) (b ∷ buf) records h k = elim (slice_cases (b ∷ buf)) [
  | inl short ↦ loop_fail fuel b buf records short ∙ sym (loop_fail more b buf records short)
  | inr (rec, rest, e, fewer) ↦
      loop_step fuel b buf records e
      ∙ split_loop_fuel fuel more rest (records ++ rec ∷ []) (omega arith) (omega arith)
      ∙ sym (loop_step more b buf records e)
]

split_loop_total :
    (fuel : ℕ) (buf : Bytes) (records : List Bytes)
    → length buf ≤ fuel
    → (found : List Bytes) × (split_loop fuel (reader buf) records ≡ some (records ++ found))
split_loop_total fuel [] records h =
    ([], loop_end fuel records ∙ ap some (sym (append-nil records)))
split_loop_total zero (b ∷ buf) records h = absurd (omega arith)
split_loop_total (suc fuel) (b ∷ buf) records h = elim (slice_cases (b ∷ buf)) [
  | inl short ↦ ([], loop_fail fuel b buf records short ∙ ap some (sym (append-nil records)))
  | inr (rec, rest, e, fewer) ↦
      let (found, all) = split_loop_total fuel rest (records ++ rec ∷ []) (omega arith) in
      (
        rec ∷ found,
        loop_step fuel b buf records e ∙ all ∙ ap some (append_assoc records (rec ∷ []) found),
      )
]

-- On every message, the loop of `splitBinaryRecords` ends within as many rounds as the message has
-- bytes.
pub split_binary_records_ends :
    (body : Bytes) → split_loop (length body) (reader body) [] ≡ some (split_binary_records body)
unfolding split_binary_records
split_binary_records_ends body =
    let (found, all) = split_loop_total (length body) body [] (omega arith) in rw all

-- The records framed one after the other, as one WebSocket message may hold them.
abbrev pub frame_all : List Bytes → Bytes
frame_all [] = []
frame_all (rec ∷ records) = frame_binary_record rec ++ frame_all records

frame_binary_record-field : (rec : Bytes) → frame_binary_record rec ≡ field rec
unfolding frame_binary_record field
frame_binary_record-field rec = refl

loop_step_shorter :
    (fuel : ℕ) (buf : Bytes) (records : List Bytes) {rec rest : Bytes}
    → slice (reader buf) ≡ (rec, reader rest)
    → length rest < length buf
    → split_loop (suc fuel) (reader buf) records
      ≡ split_loop fuel (reader rest) (records ++ rec ∷ [])
loop_step_shorter fuel [] records e h = absurd (omega arith)
loop_step_shorter fuel (b ∷ buf) records e h = loop_step fuel b buf records e

length-frame_append : (rec more : Bytes) → length more < length (frame_binary_record rec ++ more)
length-frame_append rec more = omega (
  arith,
  length-append (frame_binary_record rec) more,
  length-field rec,
  ap length (frame_binary_record-field rec),
)

slice-frame :
    (rec more : Bytes)
    → IsField rec
    → slice (reader (frame_binary_record rec ++ more)) ≡ (rec, reader more)
slice-frame rec more h = rw (frame_binary_record-field rec) ((Reads-slice rec h).runs more)

split_loop_frames :
    (fuel : ℕ) (rs : List Bytes) (tail : Bytes) (records : List Bytes)
    → All IsField rs
    → length (frame_all rs ++ tail) ≤ fuel
    → split_loop fuel (reader (frame_all rs ++ tail)) records
      ≡ split_loop fuel (reader tail) (records ++ rs)
split_loop_frames fuel [] tail records h k = rw append-nil
split_loop_frames zero (rec ∷ rs) tail records (h, hs) k = absurd (omega (arith, frame_longer))
  where
    frame_longer : length (frame_all rs ++ tail) < length (frame_all (rec ∷ rs) ++ tail)
    frame_longer = rw append_assoc (length-frame_append rec (frame_all rs ++ tail))
split_loop_frames (suc fuel) (rec ∷ rs) tail records (h, hs) k = rw append_assoc (
    loop_step_shorter fuel _ records (slice-frame rec more h) longer
    ∙ split_loop_frames fuel rs tail (records ++ rec ∷ []) hs (omega (arith, longer, same))
    ∙ ap (split_loop fuel (reader tail)) (append_assoc records (rec ∷ []) rs)
    ∙ split_loop_fuel fuel (suc fuel) tail (records ++ rec ∷ rs)
        (omega (arith, longer, same, length-append (frame_all rs) tail))
        (omega (arith, longer, same, length-append (frame_all rs) tail)))
  where
    more : Bytes
    more = frame_all rs ++ tail

    longer : length more < length (frame_binary_record rec ++ more)
    longer = length-frame_append rec more

    same : length (frame_all (rec ∷ rs) ++ tail) ≡ length (frame_binary_record rec ++ more)
    same = ap length (append_assoc (frame_binary_record rec) (frame_all rs) tail)

loop_tail :
    (fuel : ℕ) (tail : Bytes) (records : List Bytes)
    → length tail ≤ fuel
    → (slice (reader tail)).1.err ≡ some truncated
    → split_loop fuel (reader tail) records ≡ some records
loop_tail fuel [] records h e = loop_end fuel records
loop_tail zero (b ∷ tail) records h e = absurd (omega arith)
loop_tail (suc fuel) (b ∷ tail) records h e = loop_fail fuel b tail records e

-- A proper prefix of a framed record does not hold a record.
cut_record :
    (rec front : Bytes) (x : ℕ) (back : Bytes)
    → IsField rec
    → frame_binary_record rec ≡ front ++ x ∷ back
    → (slice (reader front)).1.err ≡ some truncated
cut_record rec front x back h e =
    Stable-truncated front x back Stable-slice
      (rw (sym (frame_binary_record-field rec) ∙ e) at (Reads-slice rec h))

split_upto :
    (rs : List Bytes) (tail : Bytes)
    → All IsField rs
    → (slice (reader tail)).1.err ≡ some truncated
    → split_binary_records (frame_all rs ++ tail) ≡ rs
split_upto rs tail h bad = cc all
  where
    all : some (split_binary_records (frame_all rs ++ tail)) ≡ some rs
    all =
        sym (split_binary_records_ends (frame_all rs ++ tail))
        ∙ split_loop_frames _ rs tail [] h (omega arith)
        ∙ loop_tail _ tail rs (omega (arith, length-append (frame_all rs) tail)) bad

-- Splitting a message gives back the records that were framed into it, in their order.
pub split_binary_records-frame_all :
    (rs : List Bytes) → All IsField rs → split_binary_records (frame_all rs) ≡ rs
split_binary_records-frame_all rs h =
    rw append-nil at (split_upto rs [] h (slice_short [] (unfold get_uvarint in refl)))

-- After any records `rs` whose lengths are uint64s, a last record that is cut off anywhere is
-- dropped: the message splits into `rs`.
pub split_binary_records_cut :
    (rs : List Bytes) (rec front : Bytes) (x : ℕ) (back : Bytes)
    → All IsField rs
    → IsField rec
    → frame_binary_record rec ≡ front ++ x ∷ back
    → split_binary_records (frame_all rs ++ front) ≡ rs
split_binary_records_cut rs rec front x back hs h e =
    split_upto rs front hs (cut_record rec front x back h e)
