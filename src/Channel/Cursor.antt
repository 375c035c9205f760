-- ===== src/Channel/Cursor.antt =====
-- channel.go: the contiguous serial, the detection of gaps and the fetch that heals one.
pub mod Contiguous
use realtime_go.Common.{
  ℕ, ◌+◌, ◌%◌, ◌^◌, Bool, true, false, ◌||◌, not, List, [], ◌∷◌, ◌++◌, ltb, leb, ◌==◌,
  if◌then◌else◌,
}
use realtime_go.Wire.{FetchFrame}
use realtime_go.Channel.{Channel, ChannelState, attaching, attached, Effect, start_backfill}

unfoldable pub cursor : Channel → ℕ
cursor ch = ch.contiguous_serial

-- Messages are flowing, or the attach ack is on its way.
unfoldable pub is_receiving : ChannelState → Bool
is_receiving attached = true
is_receiving attaching = true
is_receiving s = false

-- The end of `recordSerial`: one fetch at a time, from the cursor. The connection gives it an id.
unfoldable pub start_gap_fill : Channel → Channel × List Effect
start_gap_fill ch =
    if ch.backfilling || not (is_receiving ch.state) || ch.contiguous_serial == 0
    then (ch, [])
    else (
      record ch { backfilling = true },
      start_backfill (record { channel = ch.name; from_serial = ch.contiguous_serial; id = 0 })
          ∷ [],
    )

-- `ch.contiguousSerial+1` is a uint64.
unfoldable pub record_serial : ℕ → Channel → Channel × List Effect
record_serial seq ch =
    if seq == 0
    then (ch, [])
    else if ch.contiguous_serial == 0 || seq == (ch.contiguous_serial + 1) % 2 ^ 64
    then (record ch { contiguous_serial = seq }, [])
    else if leb seq ch.contiguous_serial
    then (ch, [])
    else start_gap_fill ch

-- The serials of a run of records, one after the other.
unfoldable pub record_serials : List ℕ → Channel → Channel × List Effect
record_serials [] ch = (ch, [])
record_serials (seq ∷ seqs) ch =
    let (ch1, out1) = record_serial seq ch in
    let (ch2, out2) = record_serials seqs ch1 in (ch2, out1 ++ out2)
