-- ===== src/Codec/Records/Frames.antt =====
-- A WebSocket message of several server frames.
use realtime_go.Common.{
  ◌≡◌, refl, ap, ap₂, ◌∙◌, some, List, [], ◌∷◌, ◌++◌, map, append-nil, Bytes, All,
}
use realtime_go.Wire.{ServerFrame}
use realtime_go.Codec.Reads.{IsField}
use realtime_go.Codec.Writer.{frame_binary_record}
use realtime_go.Codec.Server.{encode_server_frame, decode_server_frame}
use realtime_go.Codec.Server.Layout.{FitsServer, on_wire}
use realtime_go.Codec.Server.RoundTrip.{decode_server_frame-encode}
use realtime_go.Codec.Records.{keep_frame, decode_records, decode_server_frames}
use realtime_go.Codec.Records.Split.{
  frame_all, split_binary_records-frame_all, split_binary_records_cut,
}

-- A frame that fits, and whose record is not longer than a uint64 can say.
abbrev pub Sendable : ServerFrame → Type 0
Sendable f = FitsServer f × IsField (encode_server_frame f)

encode-IsField :
    (fs : List ServerFrame) → All Sendable fs → All IsField (map encode_server_frame fs)
encode-IsField [] h = tt
encode-IsField (f ∷ fs) (h, hs) = (h.1, encode-IsField fs hs)

decode_records-encode :
    (fs : List ServerFrame)
    → All Sendable fs
    → decode_records (map encode_server_frame fs) ≡ map on_wire fs
unfolding decode_records
decode_records-encode [] h = refl
decode_records-encode (f ∷ fs) (h, hs) = ap₂ keep_frame one (decode_records-encode fs hs)
  where
    one : decode_server_frame (encode_server_frame f) ≡ some (on_wire f)
    one = rw append-nil at (decode_server_frame-encode f [] h.0)

-- For sendable frames `fs` and `f`: a message that holds the records of `fs` and then a proper
-- prefix of the record of `f` decodes to the frames `fs`, in order, each as the wire keeps it.
pub decode_server_frames_cut :
    (fs : List ServerFrame) (f : ServerFrame) (front : Bytes) (x : Prim.Native.Nat.ℕ) (back : Bytes)
    → All Sendable fs
    → Sendable f
    → frame_binary_record (encode_server_frame f) ≡ front ++ x ∷ back
    → decode_server_frames (frame_all (map encode_server_frame fs) ++ front) ≡ map on_wire fs
unfolding decode_server_frames
decode_server_frames_cut fs f front x back hs h e =
    ap decode_records (
      split_binary_records_cut (map encode_server_frame fs) (encode_server_frame f) front x back
        (encode-IsField fs hs) h.1 e)
    ∙ decode_records-encode fs hs

-- A message that holds the records of the sendable frames `fs` decodes to these frames, in order,
-- each as the wire keeps it.
pub decode_server_frames-frame_all :
    (fs : List ServerFrame)
    → All Sendable fs
    → decode_server_frames (frame_all (map encode_server_frame fs)) ≡ map on_wire fs
unfolding decode_server_frames
decode_server_frames-frame_all fs h =
    ap decode_records
      (split_binary_records-frame_all (map encode_server_frame fs) (encode-IsField fs h))
    ∙ decode_records-encode fs h
