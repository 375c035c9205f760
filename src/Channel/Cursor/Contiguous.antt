-- ===== src/Channel/Cursor/Contiguous.antt =====
-- channel.go, `recordSerial`: the contiguous serial over runs of records.
use realtime_go.Common.{
  subst, ℕ, zero, suc, ◌+◌, ◌%◌, ◌^◌, ◌≤◌, ◌<◌, ◌≡◌, refl, ◌∙◌, ap, ◌⊎◌, Bool-cases, leb→le, inl,
  inr, Bool, false, List, [], ◌∷◌, ◌++◌, arith, length, length-append, ◌==◌, leb, if◌then◌else◌,
  ◌||◌,
}
use realtime_go.Channel.{Channel, Effect}
use realtime_go.Channel.Cursor.{start_gap_fill, record_serial, record_serials}

abbrev pub IsIn : ℕ → List ℕ → Type 0
IsIn s [] = ⊥
IsIn s (seq ∷ seqs) = (s ≡ seq) ⊎ IsIn s seqs

-- The serial after one record, and after a run of records.
unfoldable pub next_cursor : ℕ → ℕ → ℕ
next_cursor seq c = if seq == 0 then c else if c == 0 || seq == (c + 1) % 2 ^ 64 then seq else c

unfoldable pub next_cursors : List ℕ → ℕ → ℕ
next_cursors [] c = c
next_cursors (seq ∷ seqs) c = next_cursors seqs (next_cursor seq c)

pub record_serial-cursor :
    (seq : ℕ) (ch : Channel)
    → (record_serial seq ch).0.contiguous_serial ≡ next_cursor seq ch.contiguous_serial
unfolding record_serial start_gap_fill next_cursor
record_serial-cursor seq ch = ground arith

pub record_serials-cursor :
    (seqs : List ℕ) (ch : Channel)
    → (record_serials seqs ch).0.contiguous_serial ≡ next_cursors seqs ch.contiguous_serial
unfolding record_serials next_cursors
record_serials-cursor [] ch = refl
record_serials-cursor (seq ∷ seqs) ch =
    record_serials-cursor seqs (record_serial seq ch).0
    ∙ ap (next_cursors seqs) (record_serial-cursor seq ch)

pub next_cursor_mono : (seq c : ℕ) → c < 2 ^ 64 → c ≤ next_cursor seq c
unfolding next_cursor
next_cursor_mono seq c h = ground arith

next_cursor_step : (seq c s : ℕ) → 0 < c → c < s → s ≤ next_cursor seq c → s ≡ seq
unfolding next_cursor
next_cursor_step seq c s p h k = ground arith

next_cursor_pos : (seq c : ℕ) → 0 < c → 0 < next_cursor seq c
unfolding next_cursor
next_cursor_pos seq c p = ground arith

gt_of_leb : (a b : ℕ) → leb a b ≡ false → b < a
gt_of_leb a b h = ground arith

next_cursors-covers :
    (seqs : List ℕ) (c s : ℕ) → 0 < c → c < s → s ≤ next_cursors seqs c → IsIn s seqs
unfolding next_cursors
next_cursors-covers [] c s p h k = absurd (omega arith)
next_cursors-covers (seq ∷ seqs) c s p h k = elim (Bool-cases (leb s (next_cursor seq c))) [
  | inl e ↦ inl (next_cursor_step seq c s p h (leb→le s (next_cursor seq c) e))
  | inr e ↦
      inr (
        next_cursors-covers seqs (next_cursor seq c) s (next_cursor_pos seq c p) (gt_of_leb s _ e)
          k)
]

-- Once there is a baseline, every serial between the old and the new contiguous serial is among the
-- records received: the resume cursor never passes a serial that was not seen.
pub record_serials-covers :
    (seqs : List ℕ) (ch : Channel) (s : ℕ)
    → 0 < ch.contiguous_serial
    → ch.contiguous_serial < s
    → s ≤ (record_serials seqs ch).0.contiguous_serial
    → IsIn s seqs
record_serials-covers seqs ch s p h k =
    next_cursors-covers seqs ch.contiguous_serial s p h
      (subst (λ c. s ≤ c) (record_serials-cursor seqs ch) k)

-- The `count` serials after `c`.
abbrev pub serials_after : ℕ → ℕ → List ℕ
serials_after c zero = []
serials_after c (suc count) = suc c ∷ serials_after (suc c) count

next_cursor_next : (c : ℕ) → suc c < 2 ^ 64 → next_cursor (suc c) c ≡ suc c
unfolding next_cursor
next_cursor_next c h = ground arith

pub next_cursors-serials_after :
    (c count : ℕ) → c + count < 2 ^ 64 → next_cursors (serials_after c count) c ≡ c + count
unfolding next_cursors
next_cursors-serials_after c zero h = omega arith
next_cursors-serials_after c (suc count) h =
    ap (next_cursors (serials_after (suc c) count)) (next_cursor_next c (omega arith))
    ∙ next_cursors-serials_after (suc c) count (omega arith)
    ∙ omega arith

-- The fetches that may still start: none while one is in flight, else one.
abbrev pub fetches_left : Bool → ℕ
fetches_left backfilling = if backfilling then 0 else 1

record_serial-fetches :
    (seq : ℕ) (ch : Channel)
    → length (record_serial seq ch).1 + fetches_left (record_serial seq ch).0.backfilling
      ≤ fetches_left ch.backfilling
unfolding record_serial start_gap_fill
record_serial-fetches seq ch = ground arith

effects-append : (xs ys : List Effect) → length (xs ++ ys) ≡ length xs + length ys
effects-append xs ys = length-append xs ys

-- A run of records, gapped or not, starts at most one fetch, and none while one is in flight; a run
-- that starts one leaves the channel backfilling.
pub record_serials-fetches :
    (seqs : List ℕ) (ch : Channel)
    → length (record_serials seqs ch).1 + fetches_left (record_serials seqs ch).0.backfilling
      ≤ fetches_left ch.backfilling
unfolding record_serials
record_serials-fetches [] ch = omega arith
record_serials-fetches (seq ∷ seqs) ch = omega (
  arith,
  record_serial-fetches seq ch,
  record_serials-fetches seqs (record_serial seq ch).0,
  effects-append (record_serial seq ch).1 (record_serials seqs (record_serial seq ch).0).1,
)
