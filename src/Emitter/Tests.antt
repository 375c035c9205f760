-- ===== src/Emitter/Tests.antt =====
-- The emitter and the dispatcher at concrete inputs: each of their theorems at an input.
use realtime_go.Common.{ℕ, ◌≡◌, refl, true, false, List, [], ◌∷◌, ◌++◌, ◌==◌, ==_iff}
use realtime_go.Emitter.{
  EventEmitter, new_emitter, sort_ids, insert_id, drop_once, snapshot_ordered, listeners_for,
  change_listeners, add_listener, has_event, on, on_event, emit,
}
use realtime_go.Emitter.Registry.{
  Registry, Action, on_action, on_event_action, emit_action, act_all, perform, perform_all,
  Represents,
}
use realtime_go.Emitter.Refinement.{perform_all-Represents}
use realtime_go.Emitter.Dispatcher.{
  Dispatcher, enqueue_callback, run_round, run_round_of, Runs, no_run, enqueue_run, call_run,
  end_run, IsIdleOrBusy, Runs-order,
}

abbrev no_listeners : EventEmitter ℕ ℕ
no_listeners = new_emitter

abbrev no_entries : Registry ℕ ℕ
no_entries = record { last_id = 0; entries = [] }

no_listeners-Represents : Represents ◌==◌ no_listeners no_entries
unfolding sort_ids listeners_for
no_listeners-Represents = record {
  same_id = refl;
  below = tt;
  catch_all = refl;
  for_event = λ ev. refl;
}

abbrev script : List (Action ℕ ℕ)
script =
    on_event_action 7 10 true
    ∷ on_action 11
    ∷ on_event_action 7 12 false
    ∷ emit_action 7
    ∷ emit_action 7
    ∷ []

script_calls : (perform_all ◌==◌ script no_listeners).0 ≡ 11 ∷ 10 ∷ 12 ∷ 11 ∷ 12 ∷ []
unfolding perform_all perform sort_ids insert_id drop_once snapshot_ordered listeners_for
    change_listeners add_listener has_event on on_event emit
script_calls = refl

perform_all-Represents_example :
    ((perform_all ◌==◌ script no_listeners).0 ≡ (act_all ◌==◌ script no_entries).0)
    × Represents ◌==◌ (perform_all ◌==◌ script no_listeners).1 (act_all ◌==◌ script no_entries).1
perform_all-Represents_example =
    perform_all-Represents ◌==◌ ==_iff script no_listeners no_entries no_listeners-Represents

abbrev idle : Dispatcher ℕ
idle = record { queue = []; running = false }

two_callbacks : Runs idle 0 (1 ∷ 2 ∷ []) (1 ∷ 2 ∷ []) idle 0
unfolding enqueue_callback run_round run_round_of
two_callbacks =
    enqueue_run 1
      (call_run 1 [] refl (enqueue_run 2 (call_run 2 [] refl (end_run refl (no_run idle 0)))))

Runs-order_example : ((1 ∷ 2 ∷ []) ++ idle.queue ≡ idle.queue ++ 1 ∷ 2 ∷ []) × IsIdleOrBusy idle 0
Runs-order_example = Runs-order idle 0 idle 0 (refl, refl) two_callbacks
