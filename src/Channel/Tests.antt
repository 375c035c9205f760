-- ===== src/Channel/Tests.antt =====
-- The channel at concrete inputs: each theorem of the channel at an input.
use realtime_go.Common.{
  ◌+◌, ◌≤◌, ◌≡◌, refl, true, false, none, some, List, [], ◌∷◌, ◌++◌, Bytes, length, All, arith,
}
use realtime_go.Common.Int.{pos}
use realtime_go.Wire.{MsgFrame, FetchResponseFrame}
use realtime_go.Codec.Messages.{no_frame}
use realtime_go.Channel.{Channel, Message, BufferedPublish, attached, failed, new_channel}
use realtime_go.Channel.Convert.{decimal, is_cipher_encoding, member_message}
use realtime_go.Channel.Dedup.{has_key, is_duplicate_key, is_duplicate}
use realtime_go.Channel.Dedup.Window.{IsValid, see_all, is_duplicate-IsValid, is_duplicate_again}
use realtime_go.Channel.Cursor.{record_serials, record_serial, start_gap_fill, is_receiving}
use realtime_go.Channel.Cursor.Contiguous.{
  IsIn, fetches_left, record_serials-covers, record_serials-fetches,
}
use realtime_go.Channel.Batch.Order.{Call, enqueue_call, flush_call, calls, sent, calls-sent}
use realtime_go.Channel.Batch.Full.{IsBuffered, IsWithin, new_channel-IsBuffered, calls-IsBuffered}
use realtime_go.Channel.Lifecycle.{
  attach, acked, attach_answered, on_resumed, on_connection_state, conn_closed, begin_attach,
  transition, next_state, eq_state, is_live,
}
use realtime_go.Channel.Lifecycle.Listeners.{Heard}
use realtime_go.Channel.Lifecycle.Terminal.{idle_ignores}
use realtime_go.Channel.Deliver.{backfill}
use realtime_go.Channel.Deliver.Replay.{backfill_heals}
use realtime_go.Channel.Steps.Sound.{IsSound}
use realtime_go.Channel.Steps.Invariant.{Steps-IsSound}
use realtime_go.Channel.Steps.{no_step, more_steps, attach_step, attach_answered_step, Steps-Heard}

-- "a:b"
abbrev room : Bytes
room = 97 ∷ 58 ∷ 98 ∷ []

abbrev fresh : Channel
fresh = new_channel room none none

abbrev live : Channel
live = record fresh { state = attached; contiguous_serial = 4 }

abbrev hello : Message
hello = record {
  channel = room;
  name = 104 ∷ [];
  payload = 49 ∷ [];
  timestamp = pos 7;
  id = 109 ∷ 58 ∷ 48 ∷ [];
  client_id = 99 ∷ [];
  encoding = [];
  serial = 5;
  ephemeral = false;
}

abbrev other : Message
other = record hello { id = 110 ∷ [] }

abbrev stored_5 : MsgFrame
stored_5 = record no_frame { channel = room; message_id = 109 ∷ []; seq = 5 }

abbrev stored_6 : MsgFrame
stored_6 = record no_frame { channel = room; message_id = 110 ∷ []; seq = 6 }

decimal_test : decimal 107 ≡ 49 ∷ 48 ∷ 55 ∷ []
unfolding decimal
decimal_test = refl

member_id_test :
    (member_message stored_5 12 (record { name = []; payload = []; encoding = [] })).id
    ≡ 109 ∷ 58 ∷ 49 ∷ 50 ∷ []
unfolding member_message decimal
member_id_test = refl

-- "json/cipher+aes-256-gcm/base64"
cipher_encoding_test :
    is_cipher_encoding (
      106 ∷ 47 ∷ 99 ∷ 105 ∷ 112 ∷ 104 ∷ 101 ∷ 114 ∷ 43 ∷ 97 ∷ 101 ∷ 115 ∷ 45 ∷ 50 ∷ 53 ∷ 54 ∷ 45
      ∷ 103 ∷ 99 ∷ 109 ∷ 47 ∷ 98 ∷ [])
    ≡ true
unfolding is_cipher_encoding
cipher_encoding_test = refl

fresh-IsValid : IsValid fresh
unfolding new_channel has_key
fresh-IsValid = record { bounded = omega arith; distinct = tt; same = λ x. refl }

hello_is_new : (is_duplicate hello fresh).0 ≡ false
unfolding is_duplicate is_duplicate_key new_channel has_key
hello_is_new = refl

is_duplicate-IsValid_example : IsValid (is_duplicate hello fresh).1
is_duplicate-IsValid_example = is_duplicate-IsValid hello fresh fresh-IsValid

is_duplicate_again_example :
    (is_duplicate
      (record hello { serial = 9 })
      (see_all (other ∷ []) (is_duplicate hello fresh).1)).0
    ≡ true
is_duplicate_again_example =
    is_duplicate_again hello (record hello { serial = 9 }) (other ∷ []) fresh fresh-IsValid
      hello_is_new (omega arith) refl refl

cursor_test : (record_serials (5 ∷ 8 ∷ 6 ∷ []) live).0.contiguous_serial ≡ 6
unfolding record_serials record_serial start_gap_fill is_receiving new_channel
cursor_test = refl

record_serials-covers_example : IsIn 6 (5 ∷ 8 ∷ 6 ∷ [])
unfolding record_serials record_serial start_gap_fill is_receiving new_channel
record_serials-covers_example =
    record_serials-covers (5 ∷ 8 ∷ 6 ∷ []) live 6 (omega arith) (omega arith) (omega arith)

record_serials-fetches_example :
    length (record_serials (8 ∷ 9 ∷ []) live).1
      + fetches_left (record_serials (8 ∷ 9 ∷ []) live).0.backfilling
    ≤ 1
unfolding new_channel
record_serials-fetches_example = record_serials-fetches (8 ∷ 9 ∷ []) live

abbrev response : FetchResponseFrame
response = record { id = 1; channel = room; messages = stored_5 ∷ stored_6 ∷ []; resumed = true }

backfill_heals_example :
    ((backfill (some response) live).0.contiguous_serial ≡ 4 + 2)
    × ((backfill (some response) live).0.backfilling ≡ false)
backfill_heals_example =
    backfill_heals response live refl ((refl, refl, refl), ((refl, refl, refl), tt)) (omega arith)

abbrev publish_1 : BufferedPublish
publish_1 = record { member = record { name = 97 ∷ []; payload = []; encoding = [] }; done = 1 }

abbrev publish_2 : BufferedPublish
publish_2 = record { member = record { name = 98 ∷ []; payload = []; encoding = [] }; done = 2 }

abbrev three_calls : List Call
three_calls = enqueue_call 0 publish_1 ∷ enqueue_call 1 publish_2 ∷ flush_call 2 ∷ []

calls-sent_example :
    sent (calls three_calls fresh).1 ++ (calls three_calls fresh).0.batch_buf
    ≡ publish_1 ∷ publish_2 ∷ []
unfolding new_channel
calls-sent_example = calls-sent three_calls fresh

calls-IsBuffered_example :
    IsBuffered (calls three_calls fresh).0
    × All (IsWithin fresh.batch_max_messages) (calls three_calls fresh).1
calls-IsBuffered_example =
    calls-IsBuffered three_calls fresh (new_channel-IsBuffered room none none)

abbrev denied : Channel
denied = record fresh { state = failed }

idle_ignores_example :
    (on_connection_state conn_closed none denied ≡ (denied, []))
    × (on_resumed false denied ≡ (record denied { contiguous_serial = 0 }, []))
unfolding new_channel is_live
idle_ignores_example = idle_ignores conn_closed none false denied refl

Steps-Heard_example :
    Heard fresh.state
      ((attach fresh).1 ++ (attach_answered (acked none) (attach fresh).0).1 ++ [])
      (attach_answered (acked none) (attach fresh).0).0.state
unfolding new_channel attach begin_attach transition next_state eq_state
Steps-Heard_example = Steps-Heard fresh _ (
    more_steps fresh (attach fresh) _ (attach_step fresh) (
      more_steps (attach fresh).0 (attach_answered (acked none) (attach fresh).0) _
        (attach_answered_step (attach fresh).0 (acked none) refl) (no_step _)))

Steps-IsSound_example : IsSound (attach_answered (acked none) (attach fresh).0).0
unfolding new_channel attach begin_attach transition next_state eq_state
Steps-IsSound_example = Steps-IsSound room none none _ (
    more_steps fresh (attach fresh) _ (attach_step fresh) (
      more_steps (attach fresh).0 (attach_answered (acked none) (attach fresh).0) _
        (attach_answered_step (attach fresh).0 (acked none) refl) (no_step _)))
