-- ===== src/Client.antt =====
-- realtime.go: the client: batch publishes to many channels, and its registry of channels.
pub mod Merge
pub mod Registry
mod Tests
use realtime_go.Common.{
  ℕ, ◌+◌, Bool, true, false, ◌&&◌, ◌||◌, not, Option, none, some, List, [], ◌∷◌, ◌++◌, map, Bytes,
  length, ltb, if◌then◌else◌,
}
use realtime_go.Common.Maps.{find, delete, insert}
use realtime_go.Common.Strings.{eq_bytes}
use realtime_go.Errors.{Reason}
use realtime_go.Wire.{WireMember, PublishFrame}
use realtime_go.Channel.{Cipher, BatchOptions, Channel, new_channel}
use realtime_go.Channel.Batch.{null_json}

abbrev max_batch_channels : ℕ
max_batch_channels = 100

abbrev max_batch_messages : ℕ
max_batch_messages = 1000

-- The data of a message is any value.
pub record BatchMessage (A : Type 0) : Type 0 where
  pub name : Bytes
  pub value : A

pub record BatchSpec (A : Type 0) : Type 0 where
  pub channels : List Bytes
  pub messages : List (BatchMessage A)

-- `perChannel`, in the order of `order`: what a channel gets, by its first mention.
abbrev pub PerChannel : Type 0 → Type 0
PerChannel A = List (Bytes × List (BatchMessage A))

unfoldable pub add_messages :
    {A : Type 0} → Bytes → List (BatchMessage A) → PerChannel A → PerChannel A
add_messages channel messages [] = (channel, messages) ∷ []
add_messages channel messages (e ∷ es) =
    let rest = add_messages channel messages es in
    if eq_bytes channel e.0 then (e.0, e.1 ++ messages) ∷ es else e ∷ rest

unfoldable pub add_spec :
    {A : Type 0} → List Bytes → List (BatchMessage A) → PerChannel A → PerChannel A
add_spec [] messages m = m
add_spec (channel ∷ channels) messages m =
    add_spec channels messages (add_messages channel messages m)

unfoldable pub merge_specs : {A : Type 0} → List (BatchSpec A) → PerChannel A → PerChannel A
merge_specs [] m = m
merge_specs (spec ∷ specs) m = merge_specs specs (add_spec spec.channels spec.messages m)

-- The first channel that has too many messages.
unfoldable pub overfull : {A : Type 0} → PerChannel A → Option Bytes
overfull [] = none
overfull (e ∷ es) =
    let rest = overfull es in if ltb max_batch_messages (length e.1) then some e.0 else rest

-- A limit that is exceeded, or what each channel's goroutine publishes; `none` is data that does not
-- marshal.
pub data BatchPlan : Type 0 where
  too_many_channels : BatchPlan
  too_many_messages : Bytes → BatchPlan
  planned : List (Bytes × Option PublishFrame) → BatchPlan

abbrev pub batch_frame : Bytes → List WireMember → PublishFrame
batch_frame channel members = record {
  channel = channel;
  name = [];
  payload = null_json;
  members = members;
  ephemeral = false;
  message_id = [];
  encoding = [];
  id = 0;
}

-- `json.Marshal` of a value is the standard library's.
module _ {A : Type 0} (marshal : A → Option Bytes) where
  abbrev pub add_member :
      BatchMessage A → Option Bytes → Option (List WireMember) → Option (List WireMember)
  add_member message none members = none
  add_member message (some raw) none = none
  add_member message (some raw) (some members) =
      some (record { name = message.name; payload = raw; encoding = [] } ∷ members)

  unfoldable pub members_of : List (BatchMessage A) → Option (List WireMember)
  members_of [] = some []
  members_of (message ∷ messages) = add_member message (marshal message.value) (members_of messages)

  abbrev pub publish_of : Bytes → Option (List WireMember) → Option PublishFrame
  publish_of channel none = none
  publish_of channel (some members) = some (batch_frame channel members)

  unfoldable pub plan_channels : PerChannel A → List (Bytes × Option PublishFrame)
  plan_channels [] = []
  plan_channels (e ∷ es) = (e.0, publish_of e.0 (members_of e.1)) ∷ plan_channels es

  abbrev pub within_limits : PerChannel A → Option Bytes → BatchPlan
  within_limits m (some channel) = too_many_messages channel
  within_limits m none = planned (plan_channels m)

  abbrev plan_merged : PerChannel A → BatchPlan
  plan_merged m =
      if ltb max_batch_channels (length m) then too_many_channels else within_limits m (overfull m)

  -- `BatchPublish` up to the publishes.
  unfoldable pub batch_publish : List (BatchSpec A) → BatchPlan
  batch_publish specs = plan_merged (merge_specs specs [])

-- `SuccessCount` and `FailureCount`, from each channel's error.
unfoldable pub batch_counts : List (Bytes × Option Reason) → ℕ × ℕ
batch_counts [] = (0, 0)
batch_counts ((channel, none) ∷ results) =
    let (successes, failures) = batch_counts results in (successes + 1, failures)
batch_counts ((channel, some e) ∷ results) =
    let (successes, failures) = batch_counts results in (successes, failures + 1)
