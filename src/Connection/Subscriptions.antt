-- ===== src/Connection/Subscriptions.antt =====
-- connection.go: the channels to dispatch to, and the subscriptions and watchers to restore.
use realtime_go.Common.{
  ℕ, ◌+◌, Bool, Option, none, some, List, [], ◌∷◌, ◌++◌, map, Bytes, ◌==◌, if◌then◌else◌,
}
use realtime_go.Common.Maps.{member, discard, find, insert}
use realtime_go.Common.Strings.{eq_bytes}
use realtime_go.Connection.{
  Connection, Effect, restore_subscription, restore_presence, reenter_presence,
}

-- `m[key] = struct{}{}` on a set.
abbrev pub add_name : Bytes → List Bytes → List Bytes
add_name name names = name ∷ discard eq_bytes name names

unfoldable pub register_channel : Bytes → Connection → Connection
register_channel name c = record c { hooks = add_name name c.hooks }

unfoldable pub unregister_channel : Bytes → Connection → Connection
unregister_channel name c = record c { hooks = discard eq_bytes name c.hooks }

-- A missing key reads as 0.
abbrev pub or_zero : Option ℕ → ℕ
or_zero none = 0
or_zero (some n) = n

unfoldable pub subscription_epoch : Bytes → Connection → ℕ
subscription_epoch name c = or_zero (find eq_bytes name c.sub_epochs)

unfoldable pub remember_subscription : Bytes → Connection → Connection
remember_subscription name c = record c {
  desired_subs = add_name name c.desired_subs;
  sub_epochs = insert eq_bytes name (or_zero (find eq_bytes name c.sub_epochs) + 1) c.sub_epochs;
}

-- `none` is a negative epoch, which always applies.
unfoldable pub forget_subscription : Bytes → Option ℕ → Connection → Connection
forget_subscription name none c = record c { desired_subs = discard eq_bytes name c.desired_subs }
forget_subscription name (some epoch) c =
    if epoch == or_zero (find eq_bytes name c.sub_epochs)
    then record c { desired_subs = discard eq_bytes name c.desired_subs }
    else c

unfoldable pub remember_presence : Bytes → Connection → Connection
remember_presence name c = record c { desired_presence = add_name name c.desired_presence }

unfoldable pub forget_presence : Bytes → Connection → Connection
forget_presence name c = record c { desired_presence = discard eq_bytes name c.desired_presence }

-- `restoreSubscriptionsOnReconnect`: what it starts. Each request waits for its ack on its own.
unfoldable pub restore_all : Connection → List Effect
restore_all c =
    map (λ name. restore_subscription name (member eq_bytes name c.hooks)) c.desired_subs
    ++ (map restore_presence c.desired_presence ++ map reenter_presence c.hooks)

unfoldable pub restore_subscriptions : Bool → Connection → List Effect
restore_subscriptions is_reconnect c = if is_reconnect then restore_all c else []
