-- ===== src/Client/Tests.antt =====
-- The client at concrete inputs.
use realtime_go.Common.{◌≤◌, ◌≡◌, refl, none, some, List, [], ◌∷◌, Bytes}
use realtime_go.Common.Maps.{find, keys, count}
use realtime_go.Common.Strings.{eq_bytes}
use realtime_go.Client.{
  BatchMessage, BatchSpec, add_messages, add_spec, merge_specs, overfull, plan_channels,
  batch_publish,
}
use realtime_go.Client.Merge.{
  messages_for, messages_for-merge_specs, IsSmall, AllSent, batch_publish-IsSmall,
}
use realtime_go.Client.Registry.{
  Settings, Channels, get_call, release_call, get, calls_made, valid_channel_name,
}
use realtime_go.Client.Registry.Instances.{get-calls_made}

-- "a" and "b"
abbrev a : Bytes
a = 97 ∷ []

abbrev b : Bytes
b = 98 ∷ []

abbrev one : BatchMessage Bytes
one = record { name = []; value = 49 ∷ [] }

abbrev two : BatchMessage Bytes
two = record { name = []; value = 50 ∷ [] }

abbrev specs : List (BatchSpec Bytes)
specs =
    record { channels = a ∷ b ∷ []; messages = one ∷ [] }
    ∷ record { channels = a ∷ []; messages = two ∷ [] }
    ∷ []

messages_for-merge_specs_example :
    (messages_for a (merge_specs specs []) ≡ one ∷ two ∷ [])
    × (count eq_bytes a (keys (merge_specs specs [])) ≤ 1)
unfolding eq_bytes
messages_for-merge_specs_example = messages_for-merge_specs a specs

batch_publish-IsSmall_example :
    IsSmall (merge_specs specs [])
    × AllSent some (merge_specs specs []) (plan_channels some (merge_specs specs []))
unfolding batch_publish overfull merge_specs add_spec add_messages eq_bytes
batch_publish-IsSmall_example =
    batch_publish-IsSmall some specs (plan_channels some (merge_specs specs [])) refl

abbrev plain : Settings
plain = record { cipher = none; batch = none }

abbrev no_channels : Channels
no_channels = record { batch_default = none; by_name = []; made = [] }

abbrev get_a : Channels
get_a = (get a plain no_channels).1

get-calls_made_example :
    let d = calls_made (get_call b plain ∷ release_call b ∷ []) get_a in get a plain d ≡ (some 0, d)
unfolding get valid_channel_name find eq_bytes
get-calls_made_example =
    get-calls_made a 0 plain plain (get_call b plain ∷ release_call b ∷ []) no_channels refl refl
