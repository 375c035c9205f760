-- ===== src/Presence/Run.antt =====
-- presence.go: runs of a channel's presence, in the steps between which its locks are let go of.
use realtime_go.Common.{
  ℕ, ◌+◌, ◌-◌, Bool, true, false, ◌&&◌, not, Option, List, [], ◌∷◌, Bytes, ltb, if◌then◌else◌,
}
use realtime_go.Errors.{Reason}
use realtime_go.Wire.{PresenceAction}
use realtime_go.Channel.{Cipher}
use realtime_go.Presence.{
  Presence, Effect, new_presence, ensure_watching, watch_answered, give_up_watching,
  maybe_stop_watching, subscribe, on_action, off, unsubscribe, emit_action, enter_presence,
  update_presence, leave_presence, on_detached,
}

-- The presence, and how many calls stand between two of their steps: a registration before its
-- `ensureWatching`, a removal or an emit before its hook, an answer before it gives up.
pub record Run (A : Type 0) : Type 0 where
  pub presence : Presence A
  pub registering : ℕ
  pub hooks : ℕ
  pub giving_up : ℕ

unfoldable pub new_run : {A : Type 0} → Bytes → Option Cipher → Run A
new_run name cipher = record {
  presence = new_presence name cipher;
  registering = 0;
  hooks = 0;
  giving_up = 0;
}

-- What happens: the calls of the application, its listeners included, each up to the next lock; the
-- second steps of such calls; the answer of the watch request, the dispatcher and the channel.
pub data Happening (A : Type 0) : Type 0 where
  subscribe_call : ℕ → Happening A
  on_call : PresenceAction → ℕ → Bool → Happening A
  ensure_step hook_step give_up_step off_call : Happening A
  unsubscribe_call : ℕ → Option PresenceAction → Happening A
  enter_call update_call : Option A → Happening A
  leave_call : Happening A
  watch_answer : Option Reason → Happening A
  emit_event : PresenceAction → Happening A
  detached_event : Happening A

abbrev pub one_if : Bool → ℕ
one_if b = if b then 1 else 0

module _ {A : Type 0} where
  abbrev pub in_presence : Run A → Presence A × List (Effect A) → Run A × List (Effect A)
  in_presence r (p, out) = (record r { presence = p }, out)

  abbrev pub registered : Run A → Presence A → Run A × List (Effect A)
  registered r p = (record r { presence = p; registering = r.registering + 1 }, [])

  abbrev pub hook_after : Run A → List (Effect A) → Bool × Presence A → Run A × List (Effect A)
  hook_after r out (hook, p) = (record r { presence = p; hooks = r.hooks + one_if hook }, out)

  abbrev pub emitted : Run A → List (Effect A) × Bool × Presence A → Run A × List (Effect A)
  emitted r (out, hook, p) = hook_after r out (hook, p)

  -- One step. A second step happens only when a call has come to it.
  unfoldable pub happen : Happening A → Run A → Run A × List (Effect A)
  happen (subscribe_call fn) r = registered r (subscribe fn r.presence)
  happen (on_call action fn once) r = registered r (on_action action fn once r.presence)
  happen ensure_step r =
      if ltb 0 r.registering
      then in_presence (record r { registering = r.registering - 1 }) (ensure_watching r.presence)
      else (r, [])
  happen hook_step r =
      if ltb 0 r.hooks
      then in_presence (record r { hooks = r.hooks - 1 }) (maybe_stop_watching r.presence)
      else (r, [])
  happen give_up_step r =
      if ltb 0 r.giving_up
      then in_presence (record r { giving_up = r.giving_up - 1 }) (give_up_watching r.presence)
      else (r, [])
  happen off_call r = hook_after r [] (off r.presence)
  happen (unsubscribe_call id action) r = hook_after r [] (unsubscribe id action r.presence)
  happen (enter_call content) r = in_presence r (enter_presence content r.presence)
  happen (update_call content) r = in_presence r (update_presence content r.presence)
  happen leave_call r = in_presence r (leave_presence r.presence)
  happen (watch_answer e) r =
      (record r { giving_up = r.giving_up + one_if (watch_answered e r.presence) }, [])
  happen (emit_event action) r = emitted r (emit_action action r.presence)
  happen detached_event r = in_presence r (on_detached r.presence)

  unfoldable pub happen_all : List (Happening A) → Run A → Run A
  happen_all [] r = r
  happen_all (e ∷ es) r = happen_all es (happen e r).0

  -- Whether a step takes a listener away.
  abbrev pub removes : Happening A → Presence A → Bool
  removes off_call p = (off p).0
  removes (unsubscribe_call id action) p = (unsubscribe id action p).0
  removes (emit_event action) p = (emit_action action p).1
  removes e p = false

  -- In a run, no listener is taken away between a registration and its `ensureWatching`.
  abbrev pub are_apart : List (Happening A) → Run A → Bool
  are_apart [] r = true
  are_apart (e ∷ es) r =
      let rest = are_apart es (happen e r).0 in
      not (removes e r.presence && ltb 0 r.registering) && rest
