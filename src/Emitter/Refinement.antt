-- ===== src/Emitter/Refinement.antt =====
-- emitter.go: the operations of the emitter against the list of registrations.
use realtime_go.Common.{
  ℕ, ◌+◌, ◌≤◌, ◌≡◌, refl, sym, ◌∙◌, ap, ap₂, ◌↔◌, inl, inr, Bool, true, false, Option, none, some,
  List, [], ◌∷◌, ◌++◌, map, arith, All, All-append, if◌then◌else◌, Bool-cases,
}
use realtime_go.Emitter.{
  Registration, ListenerMap, EventEmitter, delete_id, sort_ids, drop_once, listener_of,
  snapshot_ordered, listeners_for, change_listeners, add_listener, on, on_event, off_all, remove,
  emit, insert_id,
}
use realtime_go.Emitter.Matching.{matches}
use realtime_go.Emitter.Sorting.{
  insert_id_last, keep, sort_ids-keep, other_id, repeats, delete_id-keep, drop_once-keep,
}
use realtime_go.Emitter.Registry.{
  Entry, Registry, Action, on_action, on_event_action, remove_action, off_all_action, emit_action,
  chosen, keep_for, register, act, perform, act_all, perform_all, Represents,
}
use realtime_go.Emitter.Chosen.{
  listeners_for-change_listeners, chosen-keep_for, chosen-append, chosen_below, keep_for_below,
  entries_mono, listeners_for-add_listener,
}

module _ {E F : Type 0} (same : E → E → Bool)
    (same_iff : (a b : E) → (same a b ≡ true) ↔ (a ≡ b)) where
  newest_last :
      (u : Option E) (l : Registration F) (n : ℕ) (s : Registry E F) (ls : ListenerMap F)
      → n ≡ s.last_id
      → All (λ r. r.id ≤ s.last_id) s.entries
      → sort_ids ls ≡ chosen same u s.entries
      → sort_ids ((n + 1, l) ∷ ls) ≡ chosen same u s.entries ++ (s.last_id + 1, l) ∷ []
  unfolding sort_ids
  newest_last u l n s ls e below h =
      ap (insert_id (n + 1, l)) h
      ∙ ap (λ k. insert_id (k + 1, l) (chosen same u s.entries)) e
      ∙ insert_id_last (s.last_id + 1, l) (chosen same u s.entries)
          (chosen_below same same_iff u s.last_id s.entries below)

  registered_below :
      (r : Entry E F) (s : Registry E F)
      → r.id ≡ s.last_id + 1
      → All (λ r. r.id ≤ s.last_id) s.entries
      → All (λ r. r.id ≤ s.last_id + 1) (s.entries ++ r ∷ [])
  registered_below r s e h =
      All-append _ s.entries _ (entries_mono same same_iff s.last_id s.entries h)
        (omega (arith, e), tt)

  on-Represents :
      (fn : F) (e : EventEmitter E F) (s : Registry E F)
      → Represents same e s
      → Represents same (on same fn e).1 (register same none fn false s)
  unfolding on register
  on-Represents fn e s v = record {
    same_id = ap (λ n. n + 1) v.same_id;
    below = registered_below _ s refl v.below;
    catch_all =
        newest_last none _ e.next_id s e.all v.same_id v.below v.catch_all
        ∙ sym (chosen-append same same_iff none s.entries _);
    for_event = λ ev. v.for_event ev ∙ sym (chosen-append same same_iff (some ev) s.entries _);
  }

  added_for :
      (ev t : E) (l : Registration F) (e : EventEmitter E F) (s : Registry E F)
      → Represents same e s
      → sort_ids (listeners_for same ev (add_listener same t (e.next_id + 1, l) e.by_event)) ≡ (
          if same ev t
          then chosen same (some ev) s.entries ++ (s.last_id + 1, l) ∷ []
          else chosen same (some ev) s.entries)
  added_for ev t l e s v =
      let added = listeners_for-add_listener same same_iff ev t (e.next_id + 1, l) e.by_event in
      elim (Bool-cases (same ev t)) [
        | inl g ↦ rw g (
            ap sort_ids (rw g at added)
            ∙ newest_last (some ev) l e.next_id s (listeners_for same ev e.by_event) v.same_id
                v.below (v.for_event ev))
        | inr g ↦ rw g (ap sort_ids (rw g at added) ∙ v.for_event ev)
      ]

  on_event-Represents :
      (t : E) (fn : F) (once : Bool) (e : EventEmitter E F) (s : Registry E F)
      → Represents same e s
      → Represents same (on_event same t fn once e).1 (register same (some t) fn once s)
  unfolding on_event register
  on_event-Represents t fn once e s v = record {
    same_id = ap (λ n. n + 1) v.same_id;
    below = registered_below _ s refl v.below;
    catch_all = v.catch_all ∙ sym (chosen-append same same_iff none s.entries _);
    for_event =
        λ ev. added_for ev t _ e s v ∙ sym (chosen-append same same_iff (some ev) s.entries _);
  }

  kept_for :
      (t u : Option E) (p : ℕ × Registration F → Bool) (rs : List (Entry E F)) (ls : ListenerMap F)
      → sort_ids ls ≡ chosen same u rs
      → sort_ids (if matches same u t then keep p ls else ls) ≡ chosen same u (keep_for same t p rs)
  kept_for t u p rs ls h =
      let spec = chosen-keep_for same same_iff u t p rs in
      elim (Bool-cases (matches same u t)) [
        | inl m ↦ rw m (sort_ids-keep p ls ∙ ap (keep p) h ∙ sym (rw m at spec))
        | inr m ↦ rw m (h ∙ sym (rw m at spec))
      ]

  changed_for :
      (ev t : E) (f : ListenerMap F → ListenerMap F) (p : ℕ × Registration F → Bool)
      (rs : List (Entry E F)) (bs : List (E × ListenerMap F))
      → ((ls : ListenerMap F) → f ls ≡ keep p ls)
      → sort_ids (listeners_for same ev bs) ≡ chosen same (some ev) rs
      → sort_ids (listeners_for same ev (change_listeners same t f bs))
        ≡ chosen same (some ev) (keep_for same (some t) p rs)
  changed_for ev t f p rs bs h k =
      ap sort_ids (
        listeners_for-change_listeners same same_iff ev t f bs (λ _. h [])
        ∙ ap (λ ls. if same ev t then ls else listeners_for same ev bs) (h _))
      ∙ kept_for (some t) (some ev) p rs (listeners_for same ev bs) k

  remove-Represents :
      (id : ℕ) (t : Option E) (e : EventEmitter E F) (s : Registry E F)
      → Represents same e s
      → Represents same
          (remove same id t e).1
          (record s { entries = keep_for same t (other_id id) s.entries })
  unfolding remove
  remove-Represents id none e s v = record {
    same_id = v.same_id;
    below = keep_for_below same same_iff none (other_id id) s.last_id s.entries v.below;
    catch_all =
        ap sort_ids (delete_id-keep id e.all)
        ∙ kept_for none none (other_id id) s.entries e.all v.catch_all;
    for_event = λ ev. kept_for none (some ev) (other_id id) s.entries _ (v.for_event ev);
  }
  remove-Represents id (some t) e s v = record {
    same_id = v.same_id;
    below = keep_for_below same same_iff (some t) (other_id id) s.last_id s.entries v.below;
    catch_all = kept_for (some t) none (other_id id) s.entries e.all v.catch_all;
    for_event = λ ev.
        changed_for ev t (delete_id id) (other_id id) s.entries e.by_event (delete_id-keep id)
          (v.for_event ev);
  }

  off_all-Represents :
      (e : EventEmitter E F) (s : Registry E F)
      → Represents same e s
      → Represents same (off_all same e).1 (record s { entries = [] })
  unfolding off_all sort_ids listeners_for
  off_all-Represents e s v = record {
    same_id = v.same_id;
    below = tt;
    catch_all = refl;
    for_event = λ ev. refl;
  }

  emit-Represents :
      (event : E) (e : EventEmitter E F) (s : Registry E F)
      → Represents same e s
      → Represents same (perform same (emit_action event) e).1 (act same (emit_action event) s).1
  unfolding perform act emit
  emit-Represents event e s v =
      let left = keep_for same none repeats s.entries in
      record {
        same_id = v.same_id;
        below =
            keep_for_below same same_iff (some event) repeats s.last_id left
              (keep_for_below same same_iff none repeats s.last_id s.entries v.below);
        catch_all = kept_for (some event) none repeats left (drop_once e.all) (
            ap sort_ids (drop_once-keep e.all)
            ∙ kept_for none none repeats s.entries e.all v.catch_all);
        for_event = λ ev.
            changed_for ev event drop_once repeats left e.by_event drop_once-keep
              (kept_for none (some ev) repeats s.entries _ (v.for_event ev));
      }

  emit_calls :
      (event : E) (e : EventEmitter E F) (s : Registry E F)
      → Represents same e s
      → (perform same (emit_action event) e).0 ≡ (act same (emit_action event) s).0
  unfolding perform act emit snapshot_ordered
  emit_calls event e s v =
      ap₂ (λ xs ys. map listener_of xs ++ map listener_of ys) v.catch_all (v.for_event event)

  perform-Represents :
      (a : Action E F) (e : EventEmitter E F) (s : Registry E F)
      → Represents same e s
      → ((perform same a e).0 ≡ (act same a s).0)
        × Represents same (perform same a e).1 (act same a s).1
  unfolding perform act
  perform-Represents (on_action fn) e s v = (refl, on-Represents fn e s v)
  perform-Represents (on_event_action t fn once) e s v = (refl, on_event-Represents t fn once e s v)
  perform-Represents (remove_action id t) e s v = (refl, remove-Represents id t e s v)
  perform-Represents off_all_action e s v = (refl, off_all-Represents e s v)
  perform-Represents (emit_action event) e s v =
      (emit_calls event e s v, emit-Represents event e s v)

  -- Over any run of registrations, removals and emits, from an emitter that represents a list of
  -- registrations: the listeners called are those that the list says, catch-all ones first and each
  -- group in the order of registration, and the emitter represents the list after the run.
  pub perform_all-Represents :
      (actions : List (Action E F)) (e : EventEmitter E F) (s : Registry E F)
      → Represents same e s
      → ((perform_all same actions e).0 ≡ (act_all same actions s).0)
        × Represents same (perform_all same actions e).1 (act_all same actions s).1
  unfolding perform_all act_all
  perform_all-Represents [] e s v = (refl, v)
  perform_all-Represents (a ∷ actions) e s v =
      let (same_calls, next) = perform-Represents a e s v in
      let (same_rest, last) =
        perform_all-Represents actions (perform same a e).1 (act same a s).1 next in
      (ap₂ ◌++◌ same_calls same_rest, last)
