-- ===== src/Presence/Watcher.antt =====
-- presence.go: the server's watcher is there only while somebody listens.
use realtime_go.Common.{
  and_parts, ℕ, ◌≡◌, refl, sym, ap, ◌∙◌, inl, inr, Bool, true, false, ◌&&◌, ◌||◌, not, Option, List,
  [], ◌∷◌, Bytes, ltb, arith, Bool-cases,
}
use realtime_go.Wire.{PresenceAction}
use realtime_go.Emitter.{EventEmitter, off_all, remove, emit, has_any}
use realtime_go.Channel.{Cipher}
use realtime_go.Presence.{
  Presence, Effect, same_action, new_presence, ensure_watching, give_up_watching,
  maybe_stop_watching, subscribe, on_action, removed, off, unsubscribe, emit_action, enter_presence,
  update_presence, leave_presence, on_detached,
}
use realtime_go.Presence.Run.{
  Run, Happening, subscribe_call, on_call, ensure_step, hook_step, give_up_step, off_call,
  unsubscribe_call, enter_call, update_call, leave_call, watch_answer, emit_event, detached_event,
  new_run, registered, hook_after, happen, happen_all, removes, are_apart,
}
use realtime_go.Presence.Listeners.{on-has_any, on_event-has_any, remove_none, emit_none, none_left}

and_false : (a b : Bool) → not (a && b) ≡ true → a ≡ true → b ≡ false
and_false true true h k = absurd (cc h)
and_false true false h k = refl
and_false false b h k = absurd (cc k)

-- Nobody is watched for in vain, but until the hook runs; and who waits to watch is there.
pub record IsUseful {A : Type 0} (r : Run A) : Type 0 where
  pub watched :
      r.hooks ≡ 0 → r.presence.watching ≡ true → has_any same_action r.presence.events ≡ true
  pub awaited : ltb 0 r.registering ≡ true → has_any same_action r.presence.events ≡ true

module _ {A : Type 0} where
  ensure_watching-events : (p : Presence A) → (ensure_watching p).0.events ≡ p.events
  unfolding ensure_watching
  ensure_watching-events p = elim (Bool-cases p.watching) [ inl e ↦ rw e refl | inr e ↦ rw e refl ]

  maybe_stop_watching-events : (p : Presence A) → (maybe_stop_watching p).0.events ≡ p.events
  unfolding maybe_stop_watching
  maybe_stop_watching-events p =
      elim (Bool-cases (not p.watching || has_any same_action p.events)) [
        | inl e ↦ rw e refl
        | inr e ↦ rw e refl
      ]

  maybe_stop_watching-has_any :
      (p : Presence A)
      → (maybe_stop_watching p).0.watching ≡ true
      → has_any same_action (maybe_stop_watching p).0.events ≡ true
  unfolding maybe_stop_watching
  maybe_stop_watching-has_any p =
      elim (Bool-cases (not p.watching || has_any same_action p.events)) [
        | inl e ↦ simp e (useful p.watching _ e)
        | inr e ↦ simp e (λ w. absurd (cc w))
      ]
    where
      useful : (w a : Bool) → (not w || a) ≡ true → w ≡ true → a ≡ true
      useful true a h k = h
      useful false a h k = absurd (cc k)

  -- What does not touch the listeners, and starts no watching.
  same_listeners :
      (r s : Run A)
      → IsUseful r
      → s.registering ≡ r.registering
      → s.hooks ≡ r.hooks
      → s.presence.events ≡ r.presence.events
      → (s.presence.watching ≡ true → r.presence.watching ≡ true)
      → IsUseful s
  same_listeners r s h d k e w = record {
    watched = λ n v. ap (has_any same_action) e ∙ h.watched (sym k ∙ n) (w v);
    awaited = λ n. ap (has_any same_action) e ∙ h.awaited (sym (ap (ltb 0) d) ∙ n);
  }

  registered-IsUseful :
      (r : Run A) (p : Presence A)
      → has_any same_action p.events ≡ true
      → IsUseful (registered r p).0
  registered-IsUseful r p h = record { watched = λ n w. h; awaited = λ n. h }

  hook_after-IsUseful :
      (r : Run A) (out : List (Effect A)) (hook : Bool) (events : EventEmitter PresenceAction ℕ)
      → IsUseful r
      → (hook ≡ true → ltb 0 r.registering ≡ false)
      → (hook ≡ false → has_any same_action events ≡ has_any same_action r.presence.events)
      → IsUseful (hook_after r out (removed (hook, events) r.presence)).0
  hook_after-IsUseful r out true events h k l = record {
    watched = λ n w. absurd (omega (arith, n));
    awaited = λ n. absurd (cc (n, k refl));
  }
  hook_after-IsUseful r out false events h k l = record {
    watched = λ n w. l refl ∙ h.watched (omega (arith, n)) w;
    awaited = λ n. l refl ∙ h.awaited n;
  }

  ensure_step-IsUseful : (r : Run A) → IsUseful r → IsUseful (happen ensure_step r).0
  unfolding happen
  ensure_step-IsUseful r h = elim (Bool-cases (ltb 0 r.registering)) [
    | inr e ↦ rw e h
    | inl e ↦
        let here = ap (has_any same_action) (ensure_watching-events r.presence) ∙ h.awaited e in
        rw e (record { watched = λ n w. here; awaited = λ n. here })
  ]

  hook_step-IsUseful : (r : Run A) → IsUseful r → IsUseful (happen hook_step r).0
  unfolding happen
  hook_step-IsUseful r h = elim (Bool-cases (ltb 0 r.hooks)) [
    | inr e ↦ rw e h
    | inl e ↦ rw e (record {
      watched = λ n w. maybe_stop_watching-has_any r.presence w;
      awaited = λ n. ap (has_any same_action) (maybe_stop_watching-events r.presence) ∙ h.awaited n;
    })
  ]

  give_up_step-IsUseful : (r : Run A) → IsUseful r → IsUseful (happen give_up_step r).0
  unfolding happen give_up_watching
  give_up_step-IsUseful r h = elim (Bool-cases (ltb 0 r.giving_up)) [
    | inr e ↦ rw e h
    | inl e ↦ rw e (record { watched = λ n w. absurd (cc w); awaited = h.awaited })
  ]

  off-IsUseful :
      (r : Run A)
      → IsUseful r
      → ((off r.presence).0 ≡ true → ltb 0 r.registering ≡ false)
      → IsUseful (happen off_call r).0
  unfolding happen off off_all
  off-IsUseful r h k =
      hook_after-IsUseful r [] (off_all same_action r.presence.events).0
        (off_all same_action r.presence.events).1 h k (λ n. none_left r.presence.events ∙ sym n)

  happen-IsUseful :
      (e : Happening A) (r : Run A)
      → IsUseful r
      → (removes e r.presence ≡ true → ltb 0 r.registering ≡ false)
      → IsUseful (happen e r).0
  unfolding happen subscribe on_action unsubscribe emit_action enter_presence update_presence
      leave_presence on_detached
  happen-IsUseful (subscribe_call fn) r h k =
      registered-IsUseful r (subscribe fn r.presence) (on-has_any fn r.presence.events)
  happen-IsUseful (on_call action fn once) r h k =
      registered-IsUseful r (on_action action fn once r.presence)
        (on_event-has_any action fn once r.presence.events)
  happen-IsUseful ensure_step r h k = ensure_step-IsUseful r h
  happen-IsUseful hook_step r h k = hook_step-IsUseful r h
  happen-IsUseful give_up_step r h k = give_up_step-IsUseful r h
  happen-IsUseful off_call r h k = off-IsUseful r h k
  happen-IsUseful (unsubscribe_call id action) r h k =
      hook_after-IsUseful r [] (remove same_action id action r.presence.events).0
        (remove same_action id action r.presence.events).1 h k
        (remove_none id action r.presence.events)
  happen-IsUseful (enter_call content) r h k = same_listeners r _ h refl refl refl (λ w. w)
  happen-IsUseful (update_call content) r h k = same_listeners r _ h refl refl refl (λ w. w)
  happen-IsUseful leave_call r h k = same_listeners r _ h refl refl refl (λ w. w)
  happen-IsUseful (watch_answer e) r h k = same_listeners r _ h refl refl refl (λ w. w)
  happen-IsUseful (emit_event action) r h k =
      hook_after-IsUseful r (emit_action action r.presence).0
        (emit same_action action r.presence.events).1 (emit same_action action r.presence.events).2
        h k (emit_none action r.presence.events)
  happen-IsUseful detached_event r h k = same_listeners r _ h refl refl refl (λ w. absurd (cc w))

  run-IsUseful :
      (es : List (Happening A)) (r : Run A)
      → IsUseful r
      → are_apart es r ≡ true
      → IsUseful (happen_all es r)
  unfolding happen_all
  run-IsUseful [] r h k = h
  run-IsUseful (e ∷ es) r h k =
      let parts = and_parts _ (are_apart es (happen e r).0) k in
      run-IsUseful es (happen e r).0 (happen-IsUseful e r h (and_false _ _ parts.0)) parts.1

new_run-IsUseful :
    {A : Type 0} → (name : Bytes) (cipher : Option Cipher) → IsUseful (new_run {A = A} name cipher)
unfolding new_run new_presence
new_run-IsUseful name cipher = record {
  watched = λ n w. absurd (cc w);
  awaited = λ n. absurd (cc n);
}

-- Whatever the application does with the presence of a new channel, and whatever the server and the
-- channel do, in any interleaving of their steps in which no listener is taken away between a
-- registration and its `ensureWatching` (listeners that fire once, refused watches and detaches are
-- included): once no hook is due, it watches only while somebody listens.
pub happen_all-has_any :
    {A : Type 0}
    → (name : Bytes) (cipher : Option Cipher) (es : List (Happening A))
    → are_apart es (new_run name cipher) ≡ true
    → (happen_all es (new_run name cipher)).hooks ≡ 0
    → (happen_all es (new_run name cipher)).presence.watching ≡ true
    → has_any same_action (happen_all es (new_run name cipher)).presence.events ≡ true
happen_all-has_any name cipher es h =
    (run-IsUseful es (new_run name cipher) (new_run-IsUseful name cipher) h).watched
