-- ===== src/Codec/Tests.antt =====
-- The codec at concrete inputs: the golden byte vectors that the three codecs share, and each
-- theorem of the codec at an input.
use realtime_go.Common.{◌≡◌, refl, true, false, none, some, [], ◌∷◌, ◌++◌, map, Bytes, arith}
use realtime_go.Common.Int.{negsuc, u64_of_int}
use realtime_go.Wire.{PublishFrame, BundledMessage, ServerFrame, publish, msg, error}
use realtime_go.Codec.Uvarint.{put_uvarint, get_uvarint}
use realtime_go.Codec.Writer.{append_uvarint, append_bytes, append_string, frame_binary_record}
use realtime_go.Codec.Reader.{
  ok, err, truncated, unknown_opcode, pure, ◌>>=◌, byte, uvarint, str, json_field, done, reader,
}
use realtime_go.Codec.Members.{append_members}
use realtime_go.Codec.Client.{
  encode_client_frame, encode_binary_publish, decode_client_record, decode_client_record_body,
}
use realtime_go.Codec.Client.RoundTrip.{decode_client_record-encode}
use realtime_go.Codec.Client.Truncated.{decode_client_record_truncated}
use realtime_go.Codec.Messages.{
  no_frame, to_bundled, bundled_to_msg, read_single_fields, read_member,
}
use realtime_go.Codec.Messages.Layout.{on_wire_member}
use realtime_go.Codec.Messages.Loops.{on_wire_bundled}
use realtime_go.Codec.Server.{
  encode_server_frame, decode_message, decode_message_of, decode_server_frame,
  decode_server_frame_body,
}
use realtime_go.Codec.Server.Layout.{on_wire, on_wire_message, unbundle}
use realtime_go.Codec.Server.RoundTrip.{decode_server_frame-encode}
use realtime_go.Codec.Server.Truncated.{decode_server_frame_truncated}
use realtime_go.Codec.Records.{split_loop, split_binary_records, decode_server_frames}
use realtime_go.Codec.Records.Split.{
  frame_all, split_binary_records-frame_all, split_binary_records_cut, split_binary_records_ends,
}
use realtime_go.Codec.Records.Frames.{decode_server_frames_cut, decode_server_frames-frame_all}

abbrev room : Bytes
room = 114 ∷ 111 ∷ 111 ∷ 109 ∷ 58 ∷ 49 ∷ []

abbrev single : PublishFrame
single = record {
  channel = room;
  name = 99 ∷ 104 ∷ 97 ∷ 116 ∷ [];
  payload = 123 ∷ 34 ∷ 104 ∷ 105 ∷ 34 ∷ 58 ∷ 34 ∷ 116 ∷ 104 ∷ 101 ∷ 114 ∷ 101 ∷ 34 ∷ 125 ∷ [];
  members = [];
  ephemeral = true;
  message_id = 109 ∷ 45 ∷ 49 ∷ [];
  encoding = [];
  id = 7;
}

abbrev batch : PublishFrame
batch = record {
  channel = room;
  name = [];
  payload = 110 ∷ 117 ∷ 108 ∷ 108 ∷ [];
  members =
      record { name = 97 ∷ []; payload = 123 ∷ 34 ∷ 105 ∷ 34 ∷ 58 ∷ 49 ∷ 125 ∷ []; encoding = [] }
      ∷ record {
        name = 98 ∷ [];
        payload = 34 ∷ 116 ∷ 119 ∷ 111 ∷ 34 ∷ [];
        encoding = 101 ∷ 110 ∷ 99 ∷ [];
      }
      ∷ [];
  ephemeral = false;
  message_id = 109 ∷ 45 ∷ 50 ∷ [];
  encoding = [];
  id = 9;
}

golden_single :
    encode_client_frame (publish single)
    ≡ 4 ∷ 1 ∷ 7 ∷ 6 ∷ 114 ∷ 111 ∷ 111 ∷ 109 ∷ 58 ∷ 49 ∷ 4 ∷ 99 ∷ 104 ∷ 97 ∷ 116 ∷ 14 ∷ 123 ∷ 34
      ∷ 104 ∷ 105 ∷ 34 ∷ 58 ∷ 34 ∷ 116 ∷ 104 ∷ 101 ∷ 114 ∷ 101 ∷ 34 ∷ 125 ∷ 0 ∷ 3 ∷ 109 ∷ 45 ∷ 49
      ∷ 0 ∷ 0 ∷ []
unfolding encode_client_frame encode_binary_publish append_uvarint append_bytes append_string
    put_uvarint append_members
golden_single = refl

golden_batch :
    encode_client_frame (publish batch)
    ≡ 4 ∷ 0 ∷ 9 ∷ 6 ∷ 114 ∷ 111 ∷ 111 ∷ 109 ∷ 58 ∷ 49 ∷ 0 ∷ 4 ∷ 110 ∷ 117 ∷ 108 ∷ 108 ∷ 0 ∷ 3 ∷ 109
      ∷ 45 ∷ 50 ∷ 0 ∷ 2 ∷ 1 ∷ 97 ∷ 7 ∷ 123 ∷ 34 ∷ 105 ∷ 34 ∷ 58 ∷ 49 ∷ 125 ∷ 0 ∷ 1 ∷ 98 ∷ 5 ∷ 34
      ∷ 116 ∷ 119 ∷ 111 ∷ 34 ∷ 3 ∷ 101 ∷ 110 ∷ 99 ∷ []
unfolding encode_client_frame encode_binary_publish append_uvarint append_bytes append_string
    put_uvarint append_members
golden_batch = refl

abbrev golden_message : Bytes
golden_message =
    84 ∷ 13 ∷ 1 ∷ 1 ∷ 240 ∷ 214 ∷ 161 ∷ 131 ∷ 242 ∷ 51 ∷ 6 ∷ 114 ∷ 111 ∷ 111 ∷ 109 ∷ 58 ∷ 49 ∷ 4
    ∷ 99 ∷ 104 ∷ 97 ∷ 116 ∷ 21 ∷ 123 ∷ 34 ∷ 104 ∷ 105 ∷ 34 ∷ 58 ∷ 34 ∷ 116 ∷ 104 ∷ 101 ∷ 114 ∷ 101
    ∷ 34 ∷ 44 ∷ 34 ∷ 110 ∷ 34 ∷ 58 ∷ 52 ∷ 50 ∷ 125 ∷ 28 ∷ 49 ∷ 55 ∷ 56 ∷ 50 ∷ 57 ∷ 53 ∷ 53 ∷ 49 ∷ 52
    ∷ 50 ∷ 48 ∷ 48 ∷ 48 ∷ 48 ∷ 48 ∷ 48 ∷ 48 ∷ 48 ∷ 48 ∷ 45 ∷ 49 ∷ 97 ∷ 50 ∷ 98 ∷ 51 ∷ 99 ∷ 52 ∷ 100
    ∷ 8 ∷ 99 ∷ 108 ∷ 105 ∷ 101 ∷ 110 ∷ 116 ∷ 45 ∷ 55 ∷ 0 ∷ 185 ∷ 96 ∷ []

abbrev golden_frame : ServerFrame
golden_frame = msg (record no_frame {
  channel = room;
  name = 99 ∷ 104 ∷ 97 ∷ 116 ∷ [];
  payload =
      123 ∷ 34 ∷ 104 ∷ 105 ∷ 34 ∷ 58 ∷ 34 ∷ 116 ∷ 104 ∷ 101 ∷ 114 ∷ 101 ∷ 34 ∷ 44 ∷ 34 ∷ 110 ∷ 34
      ∷ 58 ∷ 52 ∷ 50 ∷ 125 ∷ [];
  timestamp = 1782955142000;
  message_id =
      49 ∷ 55 ∷ 56 ∷ 50 ∷ 57 ∷ 53 ∷ 53 ∷ 49 ∷ 52 ∷ 50 ∷ 48 ∷ 48 ∷ 48 ∷ 48 ∷ 48 ∷ 48 ∷ 48 ∷ 48 ∷ 48
      ∷ 45 ∷ 49 ∷ 97 ∷ 50 ∷ 98 ∷ 51 ∷ 99 ∷ 52 ∷ 100 ∷ [];
  client_id = 99 ∷ 108 ∷ 105 ∷ 101 ∷ 110 ∷ 116 ∷ 45 ∷ 55 ∷ [];
  seq = 12345;
  ephemeral = true;
})

-- The message alone, twice, and before a malformed tail.
golden_decoding :
    (decode_server_frames golden_message ≡ golden_frame ∷ [])
    × (decode_server_frames (golden_message ++ golden_message) ≡ golden_frame ∷ golden_frame ∷ [])
    × (decode_server_frames (golden_message ++ 0xff ∷ []) ≡ golden_frame ∷ [])
unfolding decode_server_frames split_binary_records decode_server_frame decode_server_frame_body
    decode_message decode_message_of read_member read_single_fields pure ◌>>=◌ byte uvarint str
    json_field get_uvarint done
golden_decoding = (refl, refl, refl)

unknown_client_opcode : decode_client_record (99 ∷ []) ≡ err (unknown_opcode 99)
unfolding decode_client_record decode_client_record_body pure
unknown_client_opcode = refl

decode_client_record-encode_example :
    decode_client_record (encode_client_frame (publish batch) ++ 1 ∷ []) ≡ ok (publish batch)
decode_client_record-encode_example =
    decode_client_record-encode (publish batch) (1 ∷ []) (omega arith)

decode_client_record_truncated_example : decode_client_record (4 ∷ 1 ∷ 7 ∷ 6 ∷ []) ≡ err truncated
decode_client_record_truncated_example =
    decode_client_record_truncated (publish single) (4 ∷ 1 ∷ 7 ∷ 6 ∷ []) 114 (_) (omega arith)
      golden_single

-- A bundle of two members, one of them a batch.
abbrev first : BundledMessage
first = record {
  name = 97 ∷ [];
  payload = 49 ∷ [];
  timestamp = 100;
  message_id = 1 ∷ [];
  client_id = 2 ∷ [];
  encoding = [];
  seq = 5;
  ephemeral = false;
  members = [];
}

abbrev second : BundledMessage
second = record first {
  name = [];
  payload = [];
  seq = 6;
  ephemeral = true;
  members =
      record { name = 97 ∷ []; payload = 123 ∷ 34 ∷ 105 ∷ 34 ∷ 58 ∷ 49 ∷ 125 ∷ []; encoding = [] }
      ∷ [];
}

abbrev bundle_frame : ServerFrame
bundle_frame = msg (record no_frame { channel = room; bundle = first ∷ second ∷ [] })

bundle_on_wire : on_wire bundle_frame ≡ bundle_frame
unfolding on_wire on_wire_message unbundle on_wire_member on_wire_bundled to_bundled bundled_to_msg
bundle_on_wire = refl

decode_server_frame-encode_example :
    decode_server_frame (encode_server_frame bundle_frame ++ []) ≡ some (on_wire bundle_frame)
unfolding bundled_to_msg
decode_server_frame-encode_example = decode_server_frame-encode bundle_frame [] (omega arith)

abbrev failure : ServerFrame
failure = error (record { id = 3; code = negsuc 0; message = 110 ∷ 111 ∷ [] })

failure_bytes :
    encode_server_frame failure
    ≡ (15 ∷ 3 ∷ 255 ∷ 255 ∷ 255 ∷ []) ++ 255 ∷ 255 ∷ 255 ∷ 255 ∷ 255 ∷ 255 ∷ 1 ∷ 2 ∷ 110 ∷ 111 ∷ []
unfolding encode_server_frame append_uvarint append_string put_uvarint u64_of_int
failure_bytes = refl

decode_server_frame_truncated_example : decode_server_frame (15 ∷ 3 ∷ 255 ∷ 255 ∷ 255 ∷ []) ≡ none
decode_server_frame_truncated_example =
    decode_server_frame_truncated failure (15 ∷ 3 ∷ 255 ∷ 255 ∷ 255 ∷ []) 255 _ (omega arith)
      failure_bytes

split_binary_records-frame_all_example :
    split_binary_records (frame_all ((1 ∷ 2 ∷ []) ∷ [] ∷ (3 ∷ []) ∷ []))
    ≡ (1 ∷ 2 ∷ []) ∷ [] ∷ (3 ∷ []) ∷ []
split_binary_records-frame_all_example =
    split_binary_records-frame_all ((1 ∷ 2 ∷ []) ∷ [] ∷ (3 ∷ []) ∷ []) (omega arith)

framed_pair : frame_binary_record (7 ∷ 8 ∷ []) ≡ (2 ∷ 7 ∷ []) ++ 8 ∷ []
unfolding frame_binary_record put_uvarint
framed_pair = refl

split_binary_records_cut_example :
    split_binary_records (frame_all ((1 ∷ []) ∷ []) ++ 2 ∷ 7 ∷ []) ≡ (1 ∷ []) ∷ []
split_binary_records_cut_example =
    split_binary_records_cut ((1 ∷ []) ∷ []) (7 ∷ 8 ∷ []) (2 ∷ 7 ∷ []) 8 [] (omega arith)
      (omega arith) framed_pair

failure_framed :
    frame_binary_record (encode_server_frame failure)
    ≡ (15 ∷ 15 ∷ [])
      ++ 3 ∷ 255 ∷ 255 ∷ 255 ∷ 255 ∷ 255 ∷ 255 ∷ 255 ∷ 255 ∷ 255 ∷ 1 ∷ 2 ∷ 110 ∷ 111 ∷ []
unfolding frame_binary_record encode_server_frame append_uvarint append_string put_uvarint
    u64_of_int
failure_framed = refl

decode_server_frames_cut_example :
    decode_server_frames (frame_all (map encode_server_frame (failure ∷ [])) ++ 15 ∷ 15 ∷ [])
    ≡ map on_wire (failure ∷ [])
unfolding encode_server_frame append_uvarint append_string put_uvarint u64_of_int
decode_server_frames_cut_example =
    decode_server_frames_cut (failure ∷ []) failure (15 ∷ 15 ∷ []) 3 _ (omega arith) (omega arith)
      failure_framed

decode_server_frames-frame_all_example :
    decode_server_frames (frame_all (map encode_server_frame (failure ∷ failure ∷ [])))
    ≡ map on_wire (failure ∷ failure ∷ [])
unfolding encode_server_frame append_uvarint append_string put_uvarint u64_of_int
decode_server_frames-frame_all_example =
    decode_server_frames-frame_all (failure ∷ failure ∷ []) (omega arith)

split_binary_records_ends_example :
    split_loop 3 (reader (2 ∷ 7 ∷ 8 ∷ [])) [] ≡ some (split_binary_records (2 ∷ 7 ∷ 8 ∷ []))
split_binary_records_ends_example = split_binary_records_ends (2 ∷ 7 ∷ 8 ∷ [])
