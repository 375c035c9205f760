-- ===== src/Channel/Batch/Full.antt =====
-- channel.go: the size of the batching buffer, and its scheduled flush.
use realtime_go.Common.{
  ℕ, ◌+◌, ◌≤◌, ◌<◌, ◌≡◌, refl, ◌∙◌, ap, subst, true, false, Option, none, some, List, [], ◌∷◌, ◌++◌,
  arith, inl, inr, length, length-append, All, All-append, leb, Bool-cases, Bytes,
}
use realtime_go.Common.Int.{ℤ, pos, negsuc}
use realtime_go.Channel.{
  Channel, Cipher, BatchOptions, BufferedPublish, Effect, send_batch, new_channel, positive_or,
  resolve_max_messages,
}
use realtime_go.Channel.Batch.{cancel_timer, send_pending, flush_locked, flush, schedule, enqueue}
use realtime_go.Channel.Batch.Order.{Call, enqueue_call, flush_call, call, calls, buffer_with}

-- The buffer is below its limit, and while it holds anything a flush is scheduled.
pub record IsBuffered (ch : Channel) : Type 0 where
  pub below : length ch.batch_buf < ch.batch_max_messages
  pub scheduled : 0 < length ch.batch_buf → ch.batch_timer ≡ true

-- A batch is not empty and within the limit.
abbrev pub IsWithin : ℕ → Effect → Type 0
IsWithin limit (send_batch pending) = (0 < length pending) × (length pending ≤ limit)
IsWithin limit e = Unit {0}

send_pending-Full :
    (now limit : ℕ) (pending : List BufferedPublish) (ch : Channel)
    → length pending ≤ limit
    → ch.batch_buf ≡ pending
    → 0 < ch.batch_max_messages
    → IsBuffered (send_pending now pending ch).0
      × All (IsWithin limit) (send_pending now pending ch).1
      × ((send_pending now pending ch).0.batch_max_messages ≡ ch.batch_max_messages)
unfolding send_pending
send_pending-Full now limit [] ch h e p =
    (record { below = rw e p; scheduled = λ q. absurd (none_left q) }, tt, refl)
  where
    none_left : 0 < length ch.batch_buf → ⊥
    none_left q = omega (arith, ap length e)
send_pending-Full now limit (b ∷ pending) ch h e p =
    (record { below = p; scheduled = λ q. absurd (omega arith) }, ((omega arith, h), tt), refl)

cancel_timer-Full :
    (limit : ℕ) (ch : Channel)
    → ((cancel_timer ch).0.batch_buf ≡ ch.batch_buf)
      × ((cancel_timer ch).0.batch_max_messages ≡ ch.batch_max_messages)
      × All (IsWithin limit) (cancel_timer ch).1
unfolding cancel_timer
cancel_timer-Full limit ch = elim (Bool-cases ch.batch_timer) [
  | inl e ↦ rw e (refl, refl, (tt, tt))
  | inr e ↦ rw e (refl, refl, tt)
]

-- What one operation keeps, for a limit that it does not change.
abbrev pub Keeps : ℕ → Channel × List Effect → Type 0
Keeps limit r = IsBuffered r.0 × All (IsWithin limit) r.1 × (r.0.batch_max_messages ≡ limit)

flush_locked-Keeps :
    (now : ℕ) (ch : Channel)
    → 0 < ch.batch_max_messages
    → length ch.batch_buf ≤ ch.batch_max_messages
    → Keeps ch.batch_max_messages (flush_locked now ch)
unfolding flush_locked
flush_locked-Keeps now ch p h =
    let (buf, limit, quiet) = cancel_timer-Full ch.batch_max_messages ch in
    let (kept, within, same) =
      send_pending-Full now ch.batch_max_messages (cancel_timer ch).0.batch_buf (cancel_timer ch).0
        (rw buf h) refl (rw limit p) in
    (kept, All-append _ (cancel_timer ch).1 _ quiet within, same ∙ limit)

schedule-Keeps :
    (now : ℕ) (ch : Channel)
    → length ch.batch_buf < ch.batch_max_messages
    → Keeps ch.batch_max_messages (schedule now ch)
unfolding schedule
schedule-Keeps now ch h = elim (Bool-cases ch.batch_timer) [
  | inl e ↦ rw e (record { below = h; scheduled = λ q. refl }, tt, refl)
  | inr e ↦ rw e (record { below = h; scheduled = λ q. refl }, (tt, tt), refl)
]

under : (a b : ℕ) → leb a b ≡ false → b < a
under a b h = ground arith

buffer-append : (xs ys : List BufferedPublish) → length (xs ++ ys) ≡ length xs + length ys
buffer-append xs ys = length-append xs ys

enqueue-Keeps :
    (now : ℕ) (p : BufferedPublish) (ch : Channel)
    → IsBuffered ch
    → Keeps ch.batch_max_messages (enqueue now p.member p.done ch)
unfolding enqueue
enqueue-Keeps now p ch v =
    elim (Bool-cases (leb ch.batch_max_messages (length (ch.batch_buf ++ p ∷ [])))) [
      | inl e ↦ rw e (
          flush_locked-Keeps now (buffer_with p ch) (omega (arith, v.below))
            (omega (arith, v.below, buffer-append ch.batch_buf (p ∷ []))))
      | inr e ↦ rw e (schedule-Keeps now (buffer_with p ch) (under _ _ e))
    ]

pub call-Keeps : (c : Call) (ch : Channel) → IsBuffered ch → Keeps ch.batch_max_messages (call c ch)
unfolding call flush
call-Keeps (enqueue_call now p) ch v = enqueue-Keeps now p ch v
call-Keeps (flush_call now) ch v =
    flush_locked-Keeps now ch (omega (arith, v.below)) (omega (arith, v.below))

-- From a buffer that is below its limit and has a flush scheduled while it holds anything, a run of
-- publishes and flushes leads to such a buffer, and each batch sent has at least one publish and at
-- most as many as the limit.
pub calls-IsBuffered :
    (cs : List Call) (ch : Channel)
    → IsBuffered ch
    → IsBuffered (calls cs ch).0 × All (IsWithin ch.batch_max_messages) (calls cs ch).1
unfolding calls
calls-IsBuffered [] ch v = (v, tt)
calls-IsBuffered (c ∷ cs) ch v =
    let (kept, within, same) = call-Keeps c ch v in
    let (last, rest) = calls-IsBuffered cs (call c ch).0 kept in
    (
      last,
      All-append _ (call c ch).1 _ within
          (subst (λ limit. All (IsWithin limit) (calls cs (call c ch).0).1) same rest),
    )

positive_or_pos : (d : ℕ) (i : ℤ) → 0 < d → 0 < positive_or d i
unfolding positive_or
positive_or_pos d (pos n) h = ground arith
positive_or_pos d (negsuc n) h = h

-- A new channel has an empty buffer that is below its limit, whatever the batch options.
pub new_channel-IsBuffered :
    (name : Bytes) (cipher : Option Cipher) (batch : Option BatchOptions)
    → IsBuffered (new_channel name cipher batch)
unfolding new_channel resolve_max_messages
new_channel-IsBuffered name cipher none = record {
  below = omega arith;
  scheduled = λ q. absurd (omega arith);
}
new_channel-IsBuffered name cipher (some b) = record {
  below = positive_or_pos 200 b.max_messages (omega arith);
  scheduled = λ q. absurd (omega arith);
}
