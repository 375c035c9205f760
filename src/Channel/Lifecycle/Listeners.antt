-- ===== src/Channel/Lifecycle/Listeners.antt =====
-- channel.go: what state listeners hear of the state machine.
use realtime_go.Common.{
  ℕ, ◌≡◌, refl, subst, inl, inr, Bool, true, false, Option, none, some, List, [], ◌∷◌, ◌++◌, leb,
  length, if◌then◌else◌, Bool-cases,
}
use realtime_go.Errors.{is_capability_error}
use realtime_go.Channel.{
  Channel, ChannelState, initialized, attaching, attached, detaching, detached, suspended, failed,
  state_event, update_event, TransitionInfo, Reason, BufferedPublish, Effect, emit_state,
  remember_subscription, forget_subscription, run_attach, request_unsubscribe, presence_on_detached,
  stop_timer, start_timer, send_batch,
}
use realtime_go.Channel.Batch.{cancel_timer, send_pending, flush_locked, flush, schedule, enqueue}
use realtime_go.Channel.Batch.Order.{buffer_with}
use realtime_go.Wire.{WireMember}
use realtime_go.Channel.Lifecycle.{
  eq_state, same_state, next_state, transition, is_live, begin_attach, attach, AttachAnswer, acked,
  refused, attach_answered, is_detached, begin_detach, detach, mark_detached, detach_answered,
  can_resume, rebase, on_resumed, ConnectionState, conn_initialized, conn_connecting,
  conn_connected, conn_disconnected, conn_closing, conn_closed, conn_failed, on_connection_state,
}

eq_state_refl : (s : ChannelState) → eq_state s s ≡ true
unfolding eq_state
eq_state_refl initialized = refl
eq_state_refl attaching = refl
eq_state_refl attached = refl
eq_state_refl detaching = refl
eq_state_refl detached = refl
eq_state_refl suspended = refl
eq_state_refl failed = refl

abbrev pub IsQuiet : Effect → Type 0
IsQuiet (emit_state event change) = ⊥
IsQuiet e = Unit {0}

-- `Heard s out t`: from state `s`, the events of `out` lead a listener to state `t`. A change
-- names the state that the listener knows as the previous one and a different one as the current
-- one; an update leaves the state alone.
pub data Heard : ChannelState → List Effect → ChannelState → Type 0 where
  heard_nothing : {s : ChannelState} → Heard s [] s
  heard_change :
      {s u : ChannelState} {out : List Effect} (t : ChannelState) (reason : Option Reason)
      (resumed : Bool)
      → eq_state s t ≡ false
      → Heard t out u
      → Heard s
          (emit_state
              (state_event t)
              (record { current = t; previous = s; reason = reason; resumed = resumed })
            ∷ out)
          u
  heard_update :
      {s u : ChannelState} {out : List Effect} (reason : Option Reason) (resumed : Bool)
      → Heard s out u
      → Heard s
          (emit_state update_event
              (record { current = s; previous = s; reason = reason; resumed = resumed })
            ∷ out)
          u
  heard_other :
      {s u : ChannelState} {out : List Effect} (e : Effect)
      → IsQuiet e
      → Heard s out u
      → Heard s (e ∷ out) u

pub Heard-append :
    {s t u : ChannelState} {xs ys : List Effect}
    → Heard s xs t
    → Heard t ys u
    → Heard s (xs ++ ys) u
Heard-append heard_nothing k = k
Heard-append (heard_change t reason resumed n h) k =
    heard_change t reason resumed n (Heard-append h k)
Heard-append (heard_update reason resumed h) k = heard_update reason resumed (Heard-append h k)
Heard-append (heard_other e q h) k = heard_other e q (Heard-append h k)

-- What an operation told the listeners agrees with the state it left.
abbrev pub IsHeard : Channel → Channel × List Effect → Type 0
IsHeard ch r = Heard ch.state r.1 r.0.state

same_state-IsHeard : (info : Option TransitionInfo) (ch : Channel) → IsHeard ch (same_state info ch)
unfolding same_state
same_state-IsHeard none ch = heard_nothing
same_state-IsHeard (some info) ch = heard_update info.reason info.resumed heard_nothing

transition-IsHeard :
    (next : ChannelState) (info : Option TransitionInfo) (ch : Channel)
    → IsHeard ch (transition next info ch)
unfolding transition next_state
transition-IsHeard next info ch = elim (Bool-cases (eq_state ch.state next)) [
  | inl e ↦ rw e (same_state-IsHeard info ch)
  | inr e ↦ rw e (heard_change next _ _ e heard_nothing)
]

begin_attach-IsHeard : (ch : Channel) → IsHeard ch (begin_attach ch)
unfolding begin_attach
begin_attach-IsHeard ch =
    Heard-append (transition-IsHeard attaching none (record ch { attaching = true }))
      (heard_other remember_subscription tt (heard_other run_attach tt heard_nothing))

-- An operation behind a guard.
pub guarded-IsHeard :
    (b : Bool) (ch : Channel) (r q : Channel × List Effect)
    → IsHeard ch r
    → IsHeard ch q
    → IsHeard ch (if b then r else q)
guarded-IsHeard true ch r q h k = h
guarded-IsHeard false ch r q h k = k

pub attach-IsHeard : (ch : Channel) → IsHeard ch (attach ch)
unfolding attach
attach-IsHeard ch =
    guarded-IsHeard (eq_state ch.state attached) ch _ _ heard_nothing
      (guarded-IsHeard ch.attaching ch _ _ heard_nothing (begin_attach-IsHeard ch))

pub attach_answered-IsHeard : (a : AttachAnswer) (ch : Channel) → IsHeard ch (attach_answered a ch)
unfolding attach_answered
attach_answered-IsHeard (acked resumed) ch =
    guarded-IsHeard (eq_state ch.state attached) ch _ _ heard_nothing
      (transition-IsHeard attached _ (record ch { attaching = false }))
attach_answered-IsHeard (refused e) ch =
    guarded-IsHeard (is_capability_error e) ch _ _
      (heard_other (forget_subscription none) tt
        (transition-IsHeard failed _ (record ch { attaching = false })))
      (transition-IsHeard suspended _ (record ch { attaching = false }))

cancel_timer-IsHeard : (ch : Channel) → IsHeard ch (cancel_timer ch)
unfolding cancel_timer
cancel_timer-IsHeard ch =
    guarded-IsHeard ch.batch_timer ch _ _ (heard_other stop_timer tt heard_nothing) heard_nothing

send_pending-IsHeard :
    (now : ℕ) (pending : List BufferedPublish) (ch : Channel)
    → IsHeard ch (send_pending now pending ch)
unfolding send_pending
send_pending-IsHeard now [] ch = heard_nothing
send_pending-IsHeard now (p ∷ pending) ch = heard_other (send_batch (p ∷ pending)) tt heard_nothing

flush_locked-IsHeard : (now : ℕ) (ch : Channel) → IsHeard ch (flush_locked now ch)
unfolding flush_locked
flush_locked-IsHeard now ch =
    Heard-append (cancel_timer-IsHeard ch)
      (send_pending-IsHeard now (cancel_timer ch).0.batch_buf (cancel_timer ch).0)

pub flush-IsHeard : (now : ℕ) (ch : Channel) → IsHeard ch (flush now ch)
unfolding flush
flush-IsHeard now ch = flush_locked-IsHeard now ch

schedule-IsHeard : (now : ℕ) (ch : Channel) → IsHeard ch (schedule now ch)
unfolding schedule
schedule-IsHeard now ch =
    guarded-IsHeard ch.batch_timer ch _ _ heard_nothing
      (heard_other (start_timer _) tt heard_nothing)

pub enqueue-IsHeard :
    (now : ℕ) (m : WireMember) (done : ℕ) (ch : Channel) → IsHeard ch (enqueue now m done ch)
unfolding enqueue
enqueue-IsHeard now m done ch =
    guarded-IsHeard
      (leb ch.batch_max_messages (length (ch.batch_buf ++ record { member = m; done = done } ∷ [])))
      ch _ _ (flush_locked-IsHeard now (buffer_with (record { member = m; done = done }) ch))
      (schedule-IsHeard now (buffer_with (record { member = m; done = done }) ch))

begin_detach-IsHeard : (ch : Channel) → IsHeard ch (begin_detach ch)
unfolding begin_detach
begin_detach-IsHeard ch =
    Heard-append (transition-IsHeard detaching none ch)
      (heard_other presence_on_detached tt (heard_other (request_unsubscribe _) tt heard_nothing))

pub detach-IsHeard : (now : ℕ) (ch : Channel) → IsHeard ch (detach now ch)
unfolding detach
detach-IsHeard now ch =
    guarded-IsHeard (is_detached (flush now ch).0.state) ch _ _ (flush-IsHeard now ch)
      (Heard-append (flush-IsHeard now ch) (begin_detach-IsHeard (flush now ch).0))

pub detach_answered-IsHeard : (epoch : ℕ) (ch : Channel) → IsHeard ch (detach_answered epoch ch)
unfolding detach_answered mark_detached
detach_answered-IsHeard epoch ch = heard_other (forget_subscription (some epoch)) tt (
    guarded-IsHeard (eq_state ch.state detaching) ch _ _ (transition-IsHeard detached none ch)
      heard_nothing)

rebase-state : (resumed : Bool) (ch : Channel) → (rebase resumed ch).state ≡ ch.state
unfolding rebase
rebase-state true ch = refl
rebase-state false ch = refl

pub on_resumed-IsHeard : (resumed : Bool) (ch : Channel) → IsHeard ch (on_resumed resumed ch)
unfolding on_resumed
on_resumed-IsHeard resumed ch =
    subst (λ s. Heard s (on_resumed resumed ch).1 (on_resumed resumed ch).0.state)
      (rebase-state resumed ch)
      (guarded-IsHeard (can_resume ch.state) (rebase resumed ch) _ _
        (transition-IsHeard attached _ (rebase resumed ch)) heard_nothing)

pub on_connection_state-IsHeard :
    (conn : ConnectionState) (reason : Option Reason) (ch : Channel)
    → IsHeard ch (on_connection_state conn reason ch)
unfolding on_connection_state
on_connection_state-IsHeard conn_initialized reason ch = heard_nothing
on_connection_state-IsHeard conn_connecting reason ch = heard_nothing
on_connection_state-IsHeard conn_connected reason ch =
    guarded-IsHeard (eq_state ch.state suspended) ch _ _ (transition-IsHeard attaching none ch)
      heard_nothing
on_connection_state-IsHeard conn_disconnected reason ch =
    guarded-IsHeard (eq_state ch.state attached) ch _ _ (transition-IsHeard suspended _ ch)
      heard_nothing
on_connection_state-IsHeard conn_closing reason ch = heard_nothing
on_connection_state-IsHeard conn_closed reason ch =
    guarded-IsHeard (is_live ch.state) ch _ _ (transition-IsHeard detached none ch) heard_nothing
on_connection_state-IsHeard conn_failed reason ch =
    guarded-IsHeard (is_live ch.state) ch _ _ (transition-IsHeard failed _ ch) heard_nothing
