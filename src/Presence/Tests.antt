-- ===== src/Presence/Tests.antt =====
-- Presence at concrete inputs.
use realtime_go.Common.{◌≡◌, refl, true, false, none, List, [], ◌∷◌, ℕ}
use realtime_go.Wire.{enter}
use realtime_go.Emitter.{
  has_any, on, on_event, off_all, emit, listeners_for, change_listeners, has_event, add_listener,
  drop_once, has_once, any_event_listener,
}
use realtime_go.Presence.{
  new_presence, same_action, subscribe, on_action, off, ensure_watching, emit_action,
  maybe_stop_watching,
}
use realtime_go.Presence.Run.{
  Happening, subscribe_call, on_call, off_call, ensure_step, hook_step, emit_event, new_run, happen,
  happen_all,
}
use realtime_go.Presence.Watcher.{happen_all-has_any}

-- A listener of everything, and one that hears of one member.
abbrev two_listeners : List (Happening ℕ)
two_listeners =
    subscribe_call 7
    ∷ on_call enter 8 true
    ∷ ensure_step
    ∷ ensure_step
    ∷ emit_event enter
    ∷ hook_step
    ∷ []

happen_all-has_any_example :
    has_any same_action (happen_all two_listeners (new_run [] none)).presence.events ≡ true
unfolding happen_all happen new_run new_presence subscribe on_action ensure_watching emit_action
    maybe_stop_watching on on_event emit listeners_for change_listeners has_event add_listener
    drop_once has_once has_any
happen_all-has_any_example = happen_all-has_any [] none two_listeners refl refl refl

-- `Off` between the registration of another `Subscribe` and its `ensureWatching`.
abbrev off_between : List (Happening ℕ)
off_between = subscribe_call 7 ∷ off_call ∷ hook_step ∷ ensure_step ∷ []

watches_for_nobody :
    ((happen_all off_between (new_run [] none)).presence.watching ≡ true)
    × (has_any same_action (happen_all off_between (new_run [] none)).presence.events ≡ false)
    × ((happen_all off_between (new_run [] none)).hooks ≡ 0)
unfolding happen_all happen new_run new_presence subscribe ensure_watching off maybe_stop_watching
    on off_all has_any any_event_listener
watches_for_nobody = (refl, refl, refl)
