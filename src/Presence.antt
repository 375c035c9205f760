-- ===== src/Presence.antt =====
-- presence.go: presence on one channel: what this connection entered, its listeners, and the watcher
-- that the server keeps for them.
pub mod Run
pub mod Listeners
pub mod Watcher
mod Tests
use realtime_go.Common.{
  ℕ, Bool, true, false, ◌&&◌, ◌||◌, not, Option, none, some, List, [], ◌∷◌, Bytes, if◌then◌else◌,
}
use realtime_go.Common.Int.{ℤ, int_of_u64}
use realtime_go.Common.Strings.{eq_bytes}
use realtime_go.Errors.{Reason, is_capability_error}
use realtime_go.Wire.{
  PresenceAction, enter, leave, update, other, PresenceFrame, PresenceSubscribeFrame,
  PresenceUnsubscribeFrame, PresenceEventFrame,
}
use realtime_go.Emitter.{EventEmitter, new_emitter, on, on_event, off_all, remove, emit, has_any}
use realtime_go.Channel.{Cipher}
use realtime_go.Channel.Convert.{is_cipher_encoding}

pub record PresenceEvent : Type 0 where
  pub channel : Bytes
  pub action : PresenceAction
  pub client_id : Bytes
  pub connection_id : Bytes
  pub payload : Bytes
  pub encoding : Bytes
  pub timestamp : ℤ

-- A listener is known by a number. What was entered is any data, or no data.
pub record Presence (A : Type 0) : Type 0 where
  pub channel_name : Bytes
  pub cipher : Option Cipher
  pub events : EventEmitter PresenceAction ℕ
  pub watching : Bool
  pub entered : Option (Option A)

-- What it asks of the connection. The requests run in goroutines of their own.
pub data Effect (A : Type 0) : Type 0 where
  remember_presence forget_presence : Effect A
  request_watch : PresenceSubscribeFrame → Effect A
  request_unwatch : PresenceUnsubscribeFrame → Effect A
  -- `send`, by the caller or in a goroutine.
  start_send : PresenceAction → Option A → Effect A
  -- `dispatch.enqueue` of `events.emit`
  enqueue_event : PresenceEvent → Effect A
  call_listener : ℕ → Effect A

-- `==` on actions.
abbrev pub same_action : PresenceAction → PresenceAction → Bool
same_action enter enter = true
same_action leave leave = true
same_action update update = true
same_action (other a) (other b) = eq_bytes a b
same_action a b = false

unfoldable pub new_presence : {A : Type 0} → Bytes → Option Cipher → Presence A
new_presence name cipher = record {
  channel_name = name;
  cipher = cipher;
  events = new_emitter;
  watching = false;
  entered = none;
}

-- `ensureWatching`, up to the answer.
unfoldable pub ensure_watching : {A : Type 0} → Presence A → Presence A × List (Effect A)
ensure_watching p = if p.watching then (p, []) else (
  record p { watching = true },
  remember_presence ∷ request_watch (record { channel = p.channel_name; id = 0 }) ∷ [],
)

-- The answer of its request: whether the goroutine gives up, which it does when an error is about the
-- capability and nobody listens at this time.
unfoldable pub watch_answered : {A : Type 0} → Option Reason → Presence A → Bool
watch_answered none p = false
watch_answered (some e) p = is_capability_error e && not (has_any same_action p.events)

-- And then, with the lock taken again.
unfoldable pub give_up_watching : {A : Type 0} → Presence A → Presence A × List (Effect A)
give_up_watching p = (record p { watching = false }, forget_presence ∷ [])

-- `maybeStopWatching`, the emitter's hook. It looks for listeners while it holds its own lock; a
-- registration that comes in before it lets go is as one right after it.
unfoldable pub maybe_stop_watching : {A : Type 0} → Presence A → Presence A × List (Effect A)
maybe_stop_watching p = if not p.watching || has_any same_action p.events then (p, []) else (
  record p { watching = false },
  forget_presence ∷ request_unwatch (record { channel = p.channel_name; id = 0 }) ∷ [],
)

-- `Subscribe`, `On` and `Once` up to their call of `ensureWatching`, which takes a lock of its own;
-- the registration's id is what the unsubscribe function keeps.
unfoldable pub subscribe : {A : Type 0} → ℕ → Presence A → Presence A
subscribe listener p = record p { events = (on same_action listener p.events).1 }

unfoldable pub on_action : {A : Type 0} → PresenceAction → ℕ → Bool → Presence A → Presence A
on_action action listener once p = record p {
  events = (on_event same_action action listener once p.events).1;
}

-- The emitter removed listeners, or not: with the lock let go of, the hook is due if it did.
abbrev pub removed :
    {A : Type 0} → Bool × EventEmitter PresenceAction ℕ → Presence A → Bool × Presence A
removed (hook, events) p = (hook, record p { events = events })

-- `Off`, and an unsubscribe function.
unfoldable pub off : {A : Type 0} → Presence A → Bool × Presence A
off p = removed (off_all same_action p.events) p

unfoldable pub unsubscribe :
    {A : Type 0} → ℕ → Option PresenceAction → Presence A → Bool × Presence A
unsubscribe id action p = removed (remove same_action id action p.events) p

abbrev pub call_all : {A : Type 0} → List ℕ → List (Effect A)
call_all [] = []
call_all (fn ∷ fns) = call_listener fn ∷ call_all fns

-- `events.emit`, run by the dispatcher: the one-shots are dropped, the listeners are called (they may
-- call back), and the hook is due after them.
unfoldable pub emit_action :
    {A : Type 0} → PresenceAction → Presence A → List (Effect A) × Bool × Presence A
emit_action action p =
    let (fns, hook, events) = emit same_action action p.events in
    (call_all fns, hook, record p { events = events })

-- `Enter`, `Update` and `Leave`, up to `send`.
unfoldable pub enter_presence : {A : Type 0} → Option A → Presence A → Presence A × List (Effect A)
enter_presence content p = (record p { entered = some content }, start_send enter content ∷ [])

unfoldable pub update_presence : {A : Type 0} → Option A → Presence A → Presence A × List (Effect A)
update_presence content p = (record p { entered = some content }, start_send update content ∷ [])

unfoldable pub leave_presence : {A : Type 0} → Presence A → Presence A × List (Effect A)
leave_presence p = (record p { entered = none }, start_send leave none ∷ [])

-- `reenterOnReconnect`
abbrev reenter : {A : Type 0} → Option (Option A) → List (Effect A)
reenter none = []
reenter (some content) = start_send enter content ∷ []

unfoldable pub reenter_on_reconnect : {A : Type 0} → Presence A → List (Effect A)
reenter_on_reconnect p = reenter p.entered

-- `onDetached`
unfoldable pub on_detached : {A : Type 0} → Presence A → Presence A × List (Effect A)
on_detached p = (record p { watching = false; entered = none }, forget_presence ∷ [])

-- The event of a frame, as it is.
abbrev event_of : PresenceEventFrame → PresenceEvent
event_of f = record {
  channel = f.channel;
  action = f.action;
  client_id = f.client_id;
  connection_id = f.connection_id;
  payload = f.payload;
  encoding = f.encoding;
  timestamp = int_of_u64 f.timestamp;
}

abbrev decrypted : {A : Type 0} → PresenceEvent → Option Bytes → List (Effect A)
decrypted event none = []
decrypted event (some plain) = enqueue_event (record event { payload = plain; encoding = [] }) ∷ []

abbrev readable : {A : Type 0} → Option Cipher → PresenceEvent → List (Effect A)
readable none event = enqueue_event event ∷ []
readable (some cipher) event =
    if is_cipher_encoding event.encoding
    then decrypted event (cipher.decrypt event.encoding event.payload)
    else enqueue_event event ∷ []

-- `emitPresence`
unfoldable pub emit_presence : {A : Type 0} → PresenceEventFrame → Presence A → List (Effect A)
emit_presence f p = readable p.cipher (event_of f)

pub data SendPlan : Type 0 where
  attach_failed : Reason → SendPlan
  bad_content : SendPlan
  request_presence : PresenceFrame → SendPlan

-- Marshalling is the standard library's; `encrypt` is the cipher's, with its data marshalled and the
-- encoding.
module _ {A : Type 0} (marshal : A → Option Bytes) (encrypt : A → Option (Bytes × Bytes)) where
  abbrev plain_payload : Option Bytes → Option (Bytes × Bytes)
  plain_payload none = none
  plain_payload (some raw) = some (raw, [])

  abbrev presence_payload : Option Cipher → Option A → Option (Bytes × Bytes)
  presence_payload cipher none = some ([], [])
  presence_payload none (some content) = plain_payload (marshal content)
  presence_payload (some cipher) (some content) = encrypt content

  abbrev presence_request : Bytes → PresenceAction → Option (Bytes × Bytes) → SendPlan
  presence_request name action none = bad_content
  presence_request name action (some (payload, encoding)) =
      request_presence
        (record { channel = name; action = action; payload = payload; encoding = encoding; id = 0 })

  -- `send` up to its request, which fills in the id; `none` is that the attach went well.
  unfoldable pub send_presence : Option Reason → PresenceAction → Option A → Presence A → SendPlan
  send_presence (some e) action content p = attach_failed e
  send_presence none action content p =
      presence_request p.channel_name action (presence_payload p.cipher content)
