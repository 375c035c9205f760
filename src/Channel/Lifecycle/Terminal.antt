-- ===== src/Channel/Lifecycle/Terminal.antt =====
-- channel.go: a channel that is initialized, detached or failed.
use realtime_go.Common.{◌≡◌, refl, Bool, false, Option, [], if◌then◌else◌}
use realtime_go.Channel.{
  Channel, ChannelState, initialized, attaching, attached, detaching, detached, suspended, failed,
  Reason,
}
use realtime_go.Channel.Lifecycle.{
  eq_state, is_live, can_resume, rebase, on_resumed, ConnectionState, conn_initialized,
  conn_connecting, conn_connected, conn_disconnected, conn_closing, conn_closed, conn_failed,
  on_connection_state,
}

idle_not_attached : (s : ChannelState) → is_live s ≡ false → eq_state s attached ≡ false
unfolding is_live eq_state
idle_not_attached initialized h = refl
idle_not_attached detached h = refl
idle_not_attached failed h = refl
idle_not_attached attaching h = cc
idle_not_attached attached h = cc
idle_not_attached detaching h = cc
idle_not_attached suspended h = cc

idle_not_suspended : (s : ChannelState) → is_live s ≡ false → eq_state s suspended ≡ false
unfolding is_live eq_state
idle_not_suspended initialized h = refl
idle_not_suspended detached h = refl
idle_not_suspended failed h = refl
idle_not_suspended attaching h = cc
idle_not_suspended attached h = cc
idle_not_suspended detaching h = cc
idle_not_suspended suspended h = cc

idle_cannot_resume : (s : ChannelState) → is_live s ≡ false → can_resume s ≡ false
unfolding is_live can_resume
idle_cannot_resume initialized h = refl
idle_cannot_resume detached h = refl
idle_cannot_resume failed h = refl
idle_cannot_resume attaching h = cc
idle_cannot_resume attached h = cc
idle_cannot_resume detaching h = cc
idle_cannot_resume suspended h = cc

idle_connection :
    (conn : ConnectionState) (reason : Option Reason) (ch : Channel)
    → is_live ch.state ≡ false
    → on_connection_state conn reason ch ≡ (ch, [])
unfolding on_connection_state
idle_connection conn_initialized reason ch h = refl
idle_connection conn_connecting reason ch h = refl
idle_connection conn_connected reason ch h = rw (idle_not_suspended ch.state h) refl
idle_connection conn_disconnected reason ch h = rw (idle_not_attached ch.state h) refl
idle_connection conn_closing reason ch h = refl
idle_connection conn_closed reason ch h = rw h refl
idle_connection conn_failed reason ch h = rw h refl

idle_resumed :
    (resumed : Bool) (ch : Channel)
    → is_live ch.state ≡ false
    → on_resumed resumed ch ≡ (rebase resumed ch, [])
unfolding on_resumed
idle_resumed resumed ch h = rw (idle_cannot_resume ch.state h) refl

-- While a channel is initialized, detached or failed, a change of the connection leaves it as it is
-- and tells its listeners nothing, and so does a resume outcome, but for dropping the cursor when
-- messages may have been missed.
pub idle_ignores :
    (conn : ConnectionState) (reason : Option Reason) (resumed : Bool) (ch : Channel)
    → is_live ch.state ≡ false
    → (on_connection_state conn reason ch ≡ (ch, []))
      × (on_resumed resumed ch
          ≡ ((if resumed then ch else record ch { contiguous_serial = 0 }), []))
unfolding rebase
idle_ignores conn reason resumed ch h =
    (idle_connection conn reason ch h, idle_resumed resumed ch h)
