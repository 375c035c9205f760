-- ===== src/Client/Merge.antt =====
-- realtime.go: what a batch publish sends to each channel.
use realtime_go.Common.{
  suc, ◌≤◌, ◌≡◌, refl, sym, ap, subst, ◌∙◌, inl, inr, false, Option, none, some, List, [], ◌∷◌,
  ◌++◌, append_assoc, append-nil, Bytes, length, All, arith, ltb, if◌then◌else◌, Bool-cases,
}
use realtime_go.Common.Maps.{keys, count, same_apart}
use realtime_go.Common.Strings.{eq_bytes, eq_bytes_iff}
use realtime_go.Wire.{WireMember, PublishFrame}
use realtime_go.Client.{
  BatchMessage, BatchSpec, PerChannel, add_member, members_of, publish_of, add_messages, add_spec,
  merge_specs, overfull, planned, plan_channels, within_limits, batch_publish,
}

module _ {A : Type 0} where
  -- What a channel gets; nothing when it is not named.
  abbrev pub messages_for : Bytes → PerChannel A → List (BatchMessage A)
  messages_for channel [] = []
  messages_for channel (e ∷ es) = if eq_bytes channel e.0 then e.1 else messages_for channel es

  -- The messages, once for each time that the channel stands among the channels of a spec.
  abbrev pub asked_by : Bytes → List Bytes → List (BatchMessage A) → List (BatchMessage A)
  asked_by channel [] messages = []
  asked_by channel (name ∷ names) messages =
      (if eq_bytes channel name then messages else []) ++ asked_by channel names messages

  -- What the specs say a channel gets, in their order.
  abbrev pub asked : Bytes → List (BatchSpec A) → List (BatchMessage A)
  asked channel [] = []
  asked channel (spec ∷ specs) = asked_by channel spec.channels spec.messages ++ asked channel specs

  messages_for-add_messages :
      (channel name : Bytes) (messages : List (BatchMessage A)) (m : PerChannel A)
      → messages_for channel (add_messages name messages m)
        ≡ messages_for channel m ++ (if eq_bytes channel name then messages else [])
  unfolding add_messages
  messages_for-add_messages channel name messages [] = refl
  messages_for-add_messages channel name messages (e ∷ es) =
      let rest = messages_for-add_messages channel name messages es in
      elim (Bool-cases (eq_bytes name e.0)) [
        | inl h ↦
            let here : eq_bytes channel name ≡ eq_bytes channel e.0 =
              ap (eq_bytes channel) ((eq_bytes_iff name e.0).0 h) in
            rw (h, here)
              (elim (Bool-cases (eq_bytes channel e.0)) [
                | inl d ↦ rw d refl
                | inr d ↦ rw d (sym (append-nil (messages_for channel es)))
              ])
        | inr h ↦ rw h (elim (Bool-cases (eq_bytes channel e.0)) [
          | inl d ↦
              rw (d, same_apart eq_bytes eq_bytes_iff channel name e.0 d h) (sym (append-nil e.1))
          | inr d ↦ rw d rest
        ])
      ]

  messages_for-add_spec :
      (channel : Bytes) (names : List Bytes) (messages : List (BatchMessage A)) (m : PerChannel A)
      → messages_for channel (add_spec names messages m)
        ≡ messages_for channel m ++ asked_by channel names messages
  unfolding add_spec
  messages_for-add_spec channel [] messages m = sym (append-nil (messages_for channel m))
  messages_for-add_spec channel (name ∷ names) messages m =
      messages_for-add_spec channel names messages (add_messages name messages m)
      ∙ ap (λ ms. ms ++ asked_by channel names messages)
          (messages_for-add_messages channel name messages m)
      ∙ append_assoc (messages_for channel m) (if eq_bytes channel name then messages else [])
          (asked_by channel names messages)

  merged :
      (channel : Bytes) (specs : List (BatchSpec A)) (m : PerChannel A)
      → messages_for channel (merge_specs specs m) ≡ messages_for channel m ++ asked channel specs
  unfolding merge_specs
  merged channel [] m = sym (append-nil (messages_for channel m))
  merged channel (spec ∷ specs) m =
      merged channel specs (add_spec spec.channels spec.messages m)
      ∙ ap (λ ms. ms ++ asked channel specs)
          (messages_for-add_spec channel spec.channels spec.messages m)
      ∙ append_assoc (messages_for channel m) (asked_by channel spec.channels spec.messages)
          (asked channel specs)

  count-add_messages_other :
      (channel name : Bytes) (messages : List (BatchMessage A)) (m : PerChannel A)
      → eq_bytes channel name ≡ false
      → count eq_bytes channel (keys (add_messages name messages m))
        ≡ count eq_bytes channel (keys m)
  unfolding add_messages count
  count-add_messages_other channel name messages [] n = rw n refl
  count-add_messages_other channel name messages (e ∷ es) n =
      let rest = count-add_messages_other channel name messages es n in
      elim (Bool-cases (eq_bytes name e.0)) [
        | inl h ↦ rw h refl
        | inr h ↦ rw h (elim (Bool-cases (eq_bytes channel e.0)) [
          | inl d ↦ rw d (ap suc rest)
          | inr d ↦ rw d rest
        ])
      ]

  count-add_messages :
      (channel name : Bytes) (messages : List (BatchMessage A)) (m : PerChannel A)
      → count eq_bytes channel (keys m) ≤ 1
      → count eq_bytes channel (keys (add_messages name messages m)) ≤ 1
  unfolding add_messages count
  count-add_messages channel name messages [] h = ground arith
  count-add_messages channel name messages (e ∷ es) h = elim (Bool-cases (eq_bytes name e.0)) [
    | inl a ↦ rw a h
    | inr a ↦ rw a (elim (Bool-cases (eq_bytes channel e.0)) [
      | inl d ↦
          let n = same_apart eq_bytes eq_bytes_iff channel name e.0 d a in
          let others = count-add_messages_other channel name messages es n in
          rw d (omega (arith, others, rw d at h))
      | inr d ↦ rw d (count-add_messages channel name messages es (rw d at h))
    ])
  ]

  count-add_spec :
      (channel : Bytes) (names : List Bytes) (messages : List (BatchMessage A)) (m : PerChannel A)
      → count eq_bytes channel (keys m) ≤ 1
      → count eq_bytes channel (keys (add_spec names messages m)) ≤ 1
  unfolding add_spec
  count-add_spec channel [] messages m h = h
  count-add_spec channel (name ∷ names) messages m h =
      count-add_spec channel names messages (add_messages name messages m)
        (count-add_messages channel name messages m h)

  merged_once :
      (channel : Bytes) (specs : List (BatchSpec A)) (m : PerChannel A)
      → count eq_bytes channel (keys m) ≤ 1
      → count eq_bytes channel (keys (merge_specs specs m)) ≤ 1
  unfolding merge_specs
  merged_once channel [] m h = h
  merged_once channel (spec ∷ specs) m h =
      merged_once channel specs (add_spec spec.channels spec.messages m)
        (count-add_spec channel spec.channels spec.messages m h)

none_named : (channel : Bytes) → count eq_bytes channel [] ≤ 1
unfolding count
none_named channel = omega arith

-- However the specs repeat a channel, in one or in several: in the merged batches it stands at most
-- once, and it gets the messages that the specs ask for it, in their order.
pub messages_for-merge_specs :
    {A : Type 0}
    → (channel : Bytes) (specs : List (BatchSpec A))
    → (messages_for channel (merge_specs specs []) ≡ asked channel specs)
      × (count eq_bytes channel (keys (merge_specs specs [])) ≤ 1)
messages_for-merge_specs channel specs =
    (merged channel specs [], merged_once channel specs [] (none_named channel))

-- Within the limits: so many channels at most, and so many messages for each.
abbrev pub IsSmall : {A : Type 0} → PerChannel A → Type 0
IsSmall m = (length m ≤ 100) × All (λ e. length e.1 ≤ 1000) m

overfull-All :
    {A : Type 0} → (m : PerChannel A) → overfull m ≡ none → All (λ e. length e.1 ≤ 1000) m
unfolding overfull
overfull-All [] h = tt
overfull-All (e ∷ es) h = elim (Bool-cases (ltb 1000 (length e.1))) [
  | inl d ↦ absurd (cc (rw d at h))
  | inr d ↦ (ground (arith, d), overfull-All es (rw d at h))
]

within-IsSmall :
    {A : Type 0} (marshal : A → Option Bytes)
    → (m : PerChannel A) (o : Option Bytes) (sends : List (Bytes × Option PublishFrame))
    → within_limits marshal m o ≡ planned sends
    → (o ≡ none) × (sends ≡ plan_channels marshal m)
within-IsSmall marshal m none sends h = (refl, cc h)
within-IsSmall marshal m (some channel) sends h = absurd (cc h)

-- `json.Marshal` is any function.
module _ {A : Type 0} (marshal : A → Option Bytes) where
  -- Members that carry the messages, one each and in order: the name and the value as JSON.
  pub data Carries : List (BatchMessage A) → List WireMember → Type 0 where
    carries_none : Carries [] []
    carries_more :
        (m : BatchMessage A) (ms : List (BatchMessage A)) (w : WireMember) (ws : List WireMember)
        → w.name ≡ m.name
        → marshal m.value ≡ some w.payload
        → w.encoding ≡ []
        → Carries ms ws
        → Carries (m ∷ ms) (w ∷ ws)

  -- A message is among them whose value is no JSON.
  pub data HasBad : List (BatchMessage A) → Type 0 where
    bad_here :
        (m : BatchMessage A) (ms : List (BatchMessage A)) → marshal m.value ≡ none → HasBad (m ∷ ms)
    bad_later : (m : BatchMessage A) (ms : List (BatchMessage A)) → HasBad ms → HasBad (m ∷ ms)

  -- What is sent to a channel for its messages: one publish that carries them all, with the payload
  -- "null" and nothing else, or nothing when one is no JSON.
  pub data Sent (channel : Bytes) (ms : List (BatchMessage A)) : Option PublishFrame → Type 0 where
    sent :
        (ws : List WireMember)
        → Carries ms ws
        → Sent channel ms (
            some (record {
              channel = channel;
              name = [];
              payload = 110 ∷ 117 ∷ 108 ∷ 108 ∷ [];
              members = ws;
              ephemeral = false;
              message_id = [];
              encoding = [];
              id = 0;
            }))
    unsent : HasBad ms → Sent channel ms none

  -- One for each channel, in order.
  pub data AllSent : PerChannel A → List (Bytes × Option PublishFrame) → Type 0 where
    all_sent_none : AllSent [] []
    all_sent_more :
        (channel : Bytes) (ms : List (BatchMessage A)) (m : PerChannel A) (o : Option PublishFrame)
        → (sends : List (Bytes × Option PublishFrame)) → Sent channel ms o
        → AllSent m sends
        → AllSent ((channel, ms) ∷ m) ((channel, o) ∷ sends)

  data Members (ms : List (BatchMessage A)) : Option (List WireMember) → Type 0 where
    all_good : (ws : List WireMember) → Carries ms ws → Members ms (some ws)
    one_bad : HasBad ms → Members ms none

  add_member-Members :
      (m : BatchMessage A) (ms : List (BatchMessage A))
      → (raw : Option Bytes) (o : Option (List WireMember)) → marshal m.value ≡ raw
      → Members ms o
      → Members (m ∷ ms) (add_member marshal m raw o)
  add_member-Members m ms none o h k = one_bad (bad_here m ms h)
  add_member-Members m ms (some raw) _ h (one_bad bad) = one_bad (bad_later m ms bad)
  add_member-Members m ms (some raw) _ h (all_good ws good) =
      all_good _ (carries_more m ms _ ws refl h refl good)

  members_of-Members : (ms : List (BatchMessage A)) → Members ms (members_of marshal ms)
  unfolding members_of
  members_of-Members [] = all_good [] carries_none
  members_of-Members (m ∷ ms) =
      add_member-Members m ms (marshal m.value) (members_of marshal ms) refl (members_of-Members ms)

  publish_of-Sent :
      (channel : Bytes) (ms : List (BatchMessage A)) (o : Option (List WireMember))
      → Members ms o
      → Sent channel ms (publish_of marshal channel o)
  publish_of-Sent channel ms _ (all_good ws good) = sent ws good
  publish_of-Sent channel ms _ (one_bad bad) = unsent bad

  plan_channels-AllSent : (m : PerChannel A) → AllSent m (plan_channels marshal m)
  unfolding plan_channels
  plan_channels-AllSent [] = all_sent_none
  plan_channels-AllSent ((channel, ms) ∷ m) =
      all_sent_more channel ms m (publish_of marshal channel (members_of marshal ms)) _
        (publish_of-Sent channel ms (members_of marshal ms) (members_of-Members ms))
        (plan_channels-AllSent m)

-- A batch publish that is not refused has at most 100 channels and at most 1000 messages for each. For
-- each merged channel, in order, it sends one publish that carries all its messages, in order, as
-- members with their names and marshalled values, or nothing when a value of its does not marshal.
pub batch_publish-IsSmall :
    {A : Type 0} (marshal : A → Option Bytes)
    → (specs : List (BatchSpec A)) (sends : List (Bytes × Option PublishFrame))
    → batch_publish marshal specs ≡ planned sends
    → IsSmall (merge_specs specs []) × AllSent marshal (merge_specs specs []) sends
unfolding batch_publish
batch_publish-IsSmall marshal specs sends h =
    let m = merge_specs specs [] in
    elim (Bool-cases (ltb 100 (length m))) [
      | inl d ↦ absurd (cc (rw d at h))
      | inr d ↦
          let within = within-IsSmall marshal m (overfull m) sends (rw d at h) in
          let all_sent =
            subst (AllSent marshal m) (sym within.1) (plan_channels-AllSent marshal m) in
          ((ground (arith, d), overfull-All m within.0), all_sent)
    ]
