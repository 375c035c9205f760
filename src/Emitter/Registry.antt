-- ===== src/Emitter/Registry.antt =====
-- emitter.go: the emitter against one list of registrations, in the order in which they were made.
use realtime_go.Common.{
  ℕ, ◌+◌, ◌≤◌, ◌≡◌, Bool, false, Option, none, some, List, [], ◌∷◌, ◌++◌, map, All, if◌then◌else◌,
}
use realtime_go.Emitter.{
  Registration, ListenerMap, EventEmitter, sort_ids, listener_of, listeners_for, on, on_event,
  off_all, remove, emit,
}
use realtime_go.Emitter.Matching.{matches}
use realtime_go.Emitter.Sorting.{other_id, repeats}

-- One registration; without an event it is a catch-all.
pub record Entry (E F : Type 0) : Type 0 where
  pub id : ℕ
  pub event : Option E
  pub listener : Registration F

-- The highest id given out, and the registrations that stand, oldest first.
pub record Registry (E F : Type 0) : Type 0 where
  pub last_id : ℕ
  pub entries : List (Entry E F)

pub data Action (E F : Type 0) : Type 0 where
  on_action : F → Action E F
  on_event_action : E → F → Bool → Action E F
  remove_action : ℕ → Option E → Action E F
  off_all_action : Action E F
  emit_action : E → Action E F

module _ {E F : Type 0} (same : E → E → Bool) where
  -- The registrations for a target, in order.
  abbrev pub chosen : Option E → List (Entry E F) → ListenerMap F
  chosen t [] = []
  chosen t (r ∷ rs) =
      if matches same t r.event then (r.id, r.listener) ∷ chosen t rs else chosen t rs

  -- The entries, without those for a target that fail a test.
  abbrev pub keep_for : Option E → (ℕ × Registration F → Bool) → List (Entry E F) → List (Entry E F)
  keep_for t p [] = []
  keep_for t p (r ∷ rs) =
      if matches same t r.event
      then (if p (r.id, r.listener) then r ∷ keep_for t p rs else keep_for t p rs)
      else r ∷ keep_for t p rs

  unfoldable pub register : Option E → F → Bool → Registry E F → Registry E F
  register t fn once s = record {
    last_id = s.last_id + 1;
    entries =
        s.entries
        ++ record { id = s.last_id + 1; event = t; listener = record { fn = fn; once = once } }
          ∷ [];
  }

  -- What the emitter promises: catch-all listeners and then those of the event are called, each
  -- group in the order of registration, and one-shot ones that were called are gone.
  unfoldable pub act : Action E F → Registry E F → List F × Registry E F
  act (on_action fn) s = ([], register none fn false s)
  act (on_event_action event fn once) s = ([], register (some event) fn once s)
  act (remove_action id t) s = ([], record s { entries = keep_for t (other_id id) s.entries })
  act off_all_action s = ([], record s { entries = [] })
  act (emit_action event) s = (
    map listener_of (chosen none s.entries) ++ map listener_of (chosen (some event) s.entries),
    record s { entries = keep_for (some event) repeats (keep_for none repeats s.entries) },
  )

  unfoldable pub perform : Action E F → EventEmitter E F → List F × EventEmitter E F
  perform (on_action fn) e = ([], (on same fn e).1)
  perform (on_event_action event fn once) e = ([], (on_event same event fn once e).1)
  perform (remove_action id t) e = ([], (remove same id t e).1)
  perform off_all_action e = ([], (off_all same e).1)
  perform (emit_action event) e = let (calls, hook, left) = emit same event e in (calls, left)

  unfoldable pub act_all : List (Action E F) → Registry E F → List F × Registry E F
  act_all [] s = ([], s)
  act_all (a ∷ acts) s =
      let (out1, s1) = act a s in let (out2, s2) = act_all acts s1 in (out1 ++ out2, s2)

  unfoldable pub perform_all : List (Action E F) → EventEmitter E F → List F × EventEmitter E F
  perform_all [] e = ([], e)
  perform_all (a ∷ acts) e =
      let (out1, e1) = perform a e in let (out2, e2) = perform_all acts e1 in (out1 ++ out2, e2)

  -- Whatever the order of its maps, the emitter holds the registrations of the list.
  pub record Represents (e : EventEmitter E F) (s : Registry E F) : Type 0 where
    pub same_id : e.next_id ≡ s.last_id
    pub below : All (λ r. r.id ≤ s.last_id) s.entries
    pub catch_all : sort_ids e.all ≡ chosen none s.entries
    pub for_event :
        (ev : E) → sort_ids (listeners_for same ev e.by_event) ≡ chosen (some ev) s.entries
