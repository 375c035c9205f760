-- ===== src/Emitter.antt =====
-- emitter.go: the typed event emitter. A listener is known by what it is, `F`; calling one is an
-- output of `emit`, and so is a run of the `onRemoved` hook.
pub mod Dispatcher
pub mod Matching
pub mod Sorting
pub mod Registry
pub mod Chosen
pub mod Refinement
mod Tests
use realtime_go.Common.{
  ℕ, ◌+◌, Bool, true, false, ◌||◌, not, Option, none, some, List, [], ◌∷◌, ◌++◌, map, length, ltb,
  leb, ◌==◌, if◌then◌else◌,
}

pub record Registration (F : Type 0) : Type 0 where
  pub fn : F
  pub once : Bool

-- `map[int]*registration[T]`: its entries, in no order that matters, each id once.
abbrev pub ListenerMap : Type 0 → Type 0
ListenerMap F = List (ℕ × Registration F)

pub record EventEmitter (E F : Type 0) : Type 0 where
  pub next_id : ℕ
  pub all : ListenerMap F
  pub by_event : List (E × ListenerMap F)

module _ {F : Type 0} where
  -- `delete(listeners, id)`
  unfoldable pub delete_id : ℕ → ListenerMap F → ListenerMap F
  delete_id id [] = []
  delete_id id (l ∷ ls) = let rest = delete_id id ls in if id == l.0 then rest else l ∷ rest

  -- `_, ok := listeners[id]`
  unfoldable pub has_id : ℕ → ListenerMap F → Bool
  has_id id [] = false
  has_id id (l ∷ ls) = id == l.0 || has_id id ls

  -- `sort.Ints` on the ids, each with its registration.
  unfoldable pub insert_id : ℕ × Registration F → ListenerMap F → ListenerMap F
  insert_id x [] = x ∷ []
  insert_id x (l ∷ ls) = let rest = insert_id x ls in if leb x.0 l.0 then x ∷ l ∷ ls else l ∷ rest

  unfoldable pub sort_ids : ListenerMap F → ListenerMap F
  sort_ids [] = []
  sort_ids (l ∷ ls) = insert_id l (sort_ids ls)

  -- The registrations that stay after a snapshot: the one-shot ones are deleted.
  unfoldable pub drop_once : ListenerMap F → ListenerMap F
  drop_once [] = []
  drop_once (l ∷ ls) = let rest = drop_once ls in if l.1.once then rest else l ∷ rest

  unfoldable pub has_once : ListenerMap F → Bool
  has_once [] = false
  has_once (l ∷ ls) = l.1.once || has_once ls

  abbrev pub listener_of : ℕ × Registration F → F
  listener_of l = l.1.fn

  -- `snapshotOrdered`: the listeners to call.
  unfoldable pub snapshot_ordered : ListenerMap F → List F
  snapshot_ordered listeners = map listener_of (sort_ids listeners)

module _ {E F : Type 0} (same : E → E → Bool) where
  -- `e.byEvent[event]`; a missing key is a nil map, which reads as an empty one.
  unfoldable pub listeners_for : E → List (E × ListenerMap F) → ListenerMap F
  listeners_for event [] = []
  listeners_for event (b ∷ bs) =
      let rest = listeners_for event bs in if same event b.0 then b.1 else rest

  -- The listeners of an event that is in the map, changed.
  unfoldable pub change_listeners :
      E → (ListenerMap F → ListenerMap F) → List (E × ListenerMap F) → List (E × ListenerMap F)
  change_listeners event f [] = []
  change_listeners event f (b ∷ bs) =
      let rest = change_listeners event f bs in
      if same event b.0 then (b.0, f b.1) ∷ bs else b ∷ rest

  unfoldable pub has_event : E → List (E × ListenerMap F) → Bool
  has_event event [] = false
  has_event event (b ∷ bs) = same event b.0 || has_event event bs

  -- `listeners[id] = reg`, for an event whose map is made when it is missing.
  unfoldable pub add_listener :
      E → ℕ × Registration F → List (E × ListenerMap F) → List (E × ListenerMap F)
  add_listener event l bs =
      if has_event event bs then change_listeners event (λ ls. l ∷ ls) bs else (event, l ∷ []) ∷ bs

  unfoldable pub on : F → EventEmitter E F → ℕ × EventEmitter E F
  on fn e =
      let id = e.next_id + 1 in
      (id, record e { next_id = id; all = (id, record { fn = fn; once = false }) ∷ e.all })

  unfoldable pub on_event : E → F → Bool → EventEmitter E F → ℕ × EventEmitter E F
  on_event event fn once e =
      let id = e.next_id + 1 in
      (
        id,
        record e {
          next_id = id;
          by_event = add_listener event (id, record { fn = fn; once = once }) e.by_event;
        },
      )

  -- Some listener of some event.
  unfoldable pub any_event_listener : List (E × ListenerMap F) → Bool
  any_event_listener [] = false
  any_event_listener (b ∷ bs) = ltb 0 (length b.1) || any_event_listener bs

  unfoldable pub has_any : EventEmitter E F → Bool
  has_any e = ltb 0 (length e.all) || any_event_listener e.by_event

  -- The flag says whether the hook runs.
  unfoldable pub off_all : EventEmitter E F → Bool × EventEmitter E F
  off_all e = (has_any e, record e { all = []; by_event = [] })

  -- The function that `on` and `onEvent` return; without an event it is the one of `on`.
  unfoldable pub remove : ℕ → Option E → EventEmitter E F → Bool × EventEmitter E F
  remove id none e = (has_id id e.all, record e { all = delete_id id e.all })
  remove id (some event) e = (
    has_id id (listeners_for event e.by_event),
    record e { by_event = change_listeners event (delete_id id) e.by_event },
  )

  -- The listeners called, in order, whether the hook runs, and the emitter after.
  unfoldable pub emit : E → EventEmitter E F → List F × Bool × EventEmitter E F
  emit event e =
      let for_event = listeners_for event e.by_event in
      (
        snapshot_ordered e.all ++ snapshot_ordered for_event,
        has_once e.all || has_once for_event,
        record e { all = drop_once e.all; by_event = change_listeners event drop_once e.by_event },
      )

abbrev pub new_emitter : {E F : Type 0} → EventEmitter E F
new_emitter = record { next_id = 0; all = []; by_event = [] }
