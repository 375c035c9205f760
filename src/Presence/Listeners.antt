-- ===== src/Presence/Listeners.antt =====
-- emitter.go for presence.go: whether anybody listens, after each change of the listeners.
use realtime_go.Common.{
  ℕ, ◌+◌, ◌≡◌, refl, ap, ap₂, inl, inr, Bool, true, false, ◌||◌, Option, none, some, List, [], ◌∷◌,
  length, ltb, lt→ltb, arith, ◌==◌, Bool-cases,
}
use realtime_go.Wire.{PresenceAction}
use realtime_go.Emitter.{
  EventEmitter, ListenerMap, Registration, on, on_event, off_all, remove, emit, has_any, has_id,
  has_once, delete_id, drop_once, listeners_for, change_listeners, has_event, add_listener,
  any_event_listener,
}
use realtime_go.Presence.{same_action}

abbrev Actions : Type 0
Actions = List (PresenceAction × ListenerMap ℕ)

or_right : (a b : Bool) → b ≡ true → (a || b) ≡ true
or_right true b h = refl
or_right false b h = h

or_left : (a b : Bool) → a ≡ true → (a || b) ≡ true
or_left true b h = refl
or_left false b h = absurd (cc h)

not_empty : (l : ℕ × Registration ℕ) (ls : ListenerMap ℕ) → ltb 0 (length (l ∷ ls)) ≡ true
not_empty l ls = lt→ltb 0 (length (l ∷ ls)) (omega arith)

pub on-has_any :
    (fn : ℕ) (e : EventEmitter PresenceAction ℕ)
    → has_any same_action (on same_action fn e).1 ≡ true
unfolding has_any on
on-has_any fn e = or_left _ _ (not_empty (e.next_id + 1, record { fn = fn; once = false }) e.all)

changed-any :
    (action : PresenceAction) (l : ℕ × Registration ℕ) (bs : Actions)
    → has_event same_action action bs ≡ true
    → any_event_listener same_action (change_listeners same_action action (λ ls. l ∷ ls) bs) ≡ true
unfolding has_event any_event_listener change_listeners
changed-any action l [] h = absurd (cc h)
changed-any action l (b ∷ bs) h = elim (Bool-cases (same_action action b.0)) [
  | inl e ↦ rw e (or_left _ _ (not_empty l b.1))
  | inr e ↦ rw e (or_right _ _ (changed-any action l bs (rw e at h)))
]

add_listener-any :
    (action : PresenceAction) (l : ℕ × Registration ℕ) (bs : Actions)
    → any_event_listener same_action (add_listener same_action action l bs) ≡ true
unfolding add_listener any_event_listener
add_listener-any action l bs = elim (Bool-cases (has_event same_action action bs)) [
  | inl e ↦ rw e (changed-any action l bs e)
  | inr e ↦ rw e (or_left true (any_event_listener same_action bs) refl)
]

pub on_event-has_any :
    (action : PresenceAction) (fn : ℕ) (once : Bool) (e : EventEmitter PresenceAction ℕ)
    → has_any same_action (on_event same_action action fn once e).1 ≡ true
unfolding has_any on_event
on_event-has_any action fn once e = or_right _ _ (add_listener-any action _ e.by_event)

delete_id_absent : (id : ℕ) (ls : ListenerMap ℕ) → has_id id ls ≡ false → delete_id id ls ≡ ls
unfolding delete_id has_id
delete_id_absent id [] h = refl
delete_id_absent id (l ∷ ls) h = elim (Bool-cases (id == l.0)) [
  | inl e ↦ absurd (cc (rw e at h))
  | inr e ↦ rw e (ap (◌∷◌ l) (delete_id_absent id ls (rw e at h)))
]

drop_once_none : (ls : ListenerMap ℕ) → has_once ls ≡ false → drop_once ls ≡ ls
unfolding drop_once has_once
drop_once_none [] h = refl
drop_once_none (l ∷ ls) h = elim (Bool-cases l.1.once) [
  | inl e ↦ absurd (cc (rw e at h))
  | inr e ↦ simp e (ap (◌∷◌ l) (drop_once_none ls (rw e at h)))
]

-- A change that leaves an event's listeners alone.
change_listeners_same :
    (action : PresenceAction) (f : ListenerMap ℕ → ListenerMap ℕ) (bs : Actions)
    → f (listeners_for same_action action bs) ≡ listeners_for same_action action bs
    → change_listeners same_action action f bs ≡ bs
unfolding change_listeners listeners_for
change_listeners_same action f [] h = refl
change_listeners_same action f (b ∷ bs) h = elim (Bool-cases (same_action action b.0)) [
  | inl e ↦ rw e (ap (λ ls. (b.0, ls) ∷ bs) (rw e at h))
  | inr e ↦ rw e (ap (◌∷◌ b) (change_listeners_same action f bs (rw e at h)))
]

or_parts : (a b : Bool) → (a || b) ≡ false → (a ≡ false) × (b ≡ false)
or_parts true b h = absurd (cc h)
or_parts false b h = (refl, h)

pub remove_none :
    (id : ℕ) (action : Option PresenceAction) (e : EventEmitter PresenceAction ℕ)
    → (remove same_action id action e).0 ≡ false
    → has_any same_action (remove same_action id action e).1 ≡ has_any same_action e
unfolding remove has_any
remove_none id none e h =
    ap (λ ls. ltb 0 (length ls) || any_event_listener same_action e.by_event)
      (delete_id_absent id e.all h)
remove_none id (some action) e h =
    ap (λ bs. ltb 0 (length e.all) || any_event_listener same_action bs)
      (change_listeners_same action (delete_id id) e.by_event (delete_id_absent id _ h))

pub emit_none :
    (action : PresenceAction) (e : EventEmitter PresenceAction ℕ)
    → (emit same_action action e).1 ≡ false
    → has_any same_action (emit same_action action e).2 ≡ has_any same_action e
unfolding emit has_any
emit_none action e h =
    let parts = or_parts (has_once e.all) _ h in
    ap₂ (λ ls bs. ltb 0 (length ls) || any_event_listener same_action bs)
      (drop_once_none e.all parts.0)
      (change_listeners_same action drop_once e.by_event (drop_once_none _ parts.1))

pub none_left :
    (e : EventEmitter PresenceAction ℕ) → has_any same_action (off_all same_action e).1 ≡ false
unfolding has_any off_all any_event_listener
none_left e = refl
