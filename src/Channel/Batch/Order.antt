-- ===== src/Channel/Batch/Order.antt =====
-- channel.go: the order of publishes through the batching buffer.
use realtime_go.Common.{
  ℕ, ◌≡◌, refl, sym, ◌∙◌, ap, ap₂, true, false, List, [], ◌∷◌, ◌++◌, append_assoc, append-nil, inl,
  inr, length, leb, Bool-cases,
}
use realtime_go.Channel.{
  Channel, BufferedPublish, Effect, emit_state, emit_message, remember_subscription,
  forget_subscription, run_attach, request_subscribe, request_unsubscribe, start_backfill,
  presence_on_detached, stop_timer, start_timer, send_batch, publish_frame,
}
use realtime_go.Channel.Batch.{cancel_timer, send_pending, flush_locked, flush, schedule, enqueue}

-- The publishes that left in batches, in order.
abbrev pub sent : List Effect → List BufferedPublish
sent [] = []
sent (send_batch pending ∷ out) = pending ++ sent out
sent (e ∷ out) = sent out

-- A call of `enqueue`, with the time, or of `Flush` (by the user, the timer or Detach).
pub data Call : Type 0 where
  enqueue_call : ℕ → BufferedPublish → Call
  flush_call : ℕ → Call

unfoldable pub call : Call → Channel → Channel × List Effect
call (enqueue_call now p) ch = enqueue now p.member p.done ch
call (flush_call now) ch = flush now ch

unfoldable pub calls : List Call → Channel → Channel × List Effect
calls [] ch = (ch, [])
calls (c ∷ cs) ch =
    let (ch1, out1) = call c ch in let (ch2, out2) = calls cs ch1 in (ch2, out1 ++ out2)

abbrev pub enqueued : List Call → List BufferedPublish
enqueued [] = []
enqueued (enqueue_call now p ∷ cs) = p ∷ enqueued cs
enqueued (flush_call now ∷ cs) = enqueued cs

sent-append : (xs ys : List Effect) → sent (xs ++ ys) ≡ sent xs ++ sent ys
sent-append [] ys = refl
sent-append (send_batch p ∷ xs) ys =
    ap (◌++◌ p) (sent-append xs ys) ∙ sym (append_assoc p (sent xs) (sent ys))
sent-append (emit_state e c ∷ xs) ys = sent-append xs ys
sent-append (emit_message m ∷ xs) ys = sent-append xs ys
sent-append (remember_subscription ∷ xs) ys = sent-append xs ys
sent-append (forget_subscription e ∷ xs) ys = sent-append xs ys
sent-append (run_attach ∷ xs) ys = sent-append xs ys
sent-append (request_subscribe f ∷ xs) ys = sent-append xs ys
sent-append (request_unsubscribe f ∷ xs) ys = sent-append xs ys
sent-append (start_backfill f ∷ xs) ys = sent-append xs ys
sent-append (presence_on_detached ∷ xs) ys = sent-append xs ys
sent-append (stop_timer ∷ xs) ys = sent-append xs ys
sent-append (start_timer w ∷ xs) ys = sent-append xs ys
sent-append (publish_frame f ∷ xs) ys = sent-append xs ys

send_pending-sent :
    (now : ℕ) (pending : List BufferedPublish) (ch : Channel)
    → ch.batch_buf ≡ pending
    → (sent (send_pending now pending ch).1 ≡ pending)
      × ((send_pending now pending ch).0.batch_buf ≡ [])
unfolding send_pending
send_pending-sent now [] ch e = (refl, e)
send_pending-sent now (p ∷ pending) ch e = (append-nil (p ∷ pending), refl)

cancel_timer-keeps :
    (ch : Channel)
    → ((cancel_timer ch).0.batch_buf ≡ ch.batch_buf)
      × ((cancel_timer ch).0.batch_timer ≡ false)
      × (sent (cancel_timer ch).1 ≡ [])
unfolding cancel_timer
cancel_timer-keeps ch = elim (Bool-cases ch.batch_timer) [
  | inl e ↦ rw e (refl, refl, refl)
  | inr e ↦ rw e (refl, refl, refl)
]

flush_locked-sent :
    (now : ℕ) (ch : Channel)
    → (sent (flush_locked now ch).1 ≡ ch.batch_buf) × ((flush_locked now ch).0.batch_buf ≡ [])
unfolding flush_locked
flush_locked-sent now ch =
    let (buf, timer, quiet) = cancel_timer-keeps ch in
    let (out, left) =
      send_pending-sent now (cancel_timer ch).0.batch_buf (cancel_timer ch).0 refl in
    (sent-append (cancel_timer ch).1 _ ∙ ap₂ (◌++◌) quiet (out ∙ buf), left)

schedule-keeps :
    (now : ℕ) (ch : Channel)
    → ((schedule now ch).0.batch_buf ≡ ch.batch_buf)
      × ((schedule now ch).0.batch_timer ≡ true)
      × (sent (schedule now ch).1 ≡ [])
unfolding schedule
schedule-keeps now ch = elim (Bool-cases ch.batch_timer) [
  | inl e ↦ rw e (refl, refl, refl)
  | inr e ↦ rw e (refl, refl, refl)
]

-- The channel with one more publish in its buffer.
abbrev pub buffer_with : BufferedPublish → Channel → Channel
buffer_with p ch = record ch { batch_buf = ch.batch_buf ++ p ∷ [] }

enqueue-sent :
    (now : ℕ) (p : BufferedPublish) (ch : Channel)
    → sent (enqueue now p.member p.done ch).1 ++ (enqueue now p.member p.done ch).0.batch_buf
      ≡ ch.batch_buf ++ p ∷ []
unfolding enqueue
enqueue-sent now p ch =
    elim (Bool-cases (leb ch.batch_max_messages (length (ch.batch_buf ++ p ∷ [])))) [
      | inl e ↦
          let (out, left) = flush_locked-sent now (buffer_with p ch) in
          rw e (ap₂ (◌++◌) out left ∙ append-nil _)
      | inr e ↦
          let (buf, timer, quiet) = schedule-keeps now (buffer_with p ch) in
          rw e (ap₂ (◌++◌) quiet buf)
    ]

call-sent :
    (c : Call) (ch : Channel)
    → sent (call c ch).1 ++ (call c ch).0.batch_buf ≡ ch.batch_buf ++ enqueued (c ∷ [])
unfolding call flush
call-sent (enqueue_call now p) ch = enqueue-sent now p ch
call-sent (flush_call now) ch = let (out, left) = flush_locked-sent now ch in ap₂ (◌++◌) out left

enqueued-one : (c : Call) (cs : List Call) → enqueued (c ∷ cs) ≡ enqueued (c ∷ []) ++ enqueued cs
enqueued-one (enqueue_call now p) cs = refl
enqueued-one (flush_call now) cs = refl

-- Over any run of publishes and flushes: the batches that were sent, followed by what is still
-- buffered, are what was buffered before followed by the publishes made, in their order.
pub calls-sent :
    (cs : List Call) (ch : Channel)
    → sent (calls cs ch).1 ++ (calls cs ch).0.batch_buf ≡ ch.batch_buf ++ enqueued cs
unfolding calls
calls-sent [] ch = sym (append-nil ch.batch_buf)
calls-sent (c ∷ cs) ch =
    let (ch1, out1) = call c ch in
    let (ch2, out2) = calls cs ch1 in
    ap (λ l. l ++ ch2.batch_buf) (sent-append out1 out2)
    ∙ append_assoc (sent out1) (sent out2) ch2.batch_buf
    ∙ ap (◌++◌ (sent out1)) (calls-sent cs ch1)
    ∙ sym (append_assoc (sent out1) ch1.batch_buf (enqueued cs))
    ∙ ap (λ l. l ++ enqueued cs) (call-sent c ch)
    ∙ append_assoc ch.batch_buf (enqueued (c ∷ [])) (enqueued cs)
    ∙ ap (◌++◌ ch.batch_buf) (sym (enqueued-one c cs))
