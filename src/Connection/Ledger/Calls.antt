-- ===== src/Connection/Ledger/Calls.antt =====
-- connection.go: the account over the calls that wait: requests and publishes.
use realtime_go.Common.{
  ℕ, ◌+◌, ◌≤◌, ◌≡◌, refl, inl, inr, ◌||◌, not, Option, none, some, List, [], ◌∷◌, arith, ◌==◌,
  ==_iff, Bool-cases,
}
use realtime_go.Common.Maps.{keys, discard, count_put, keys-delete}
use realtime_go.Common.Strings.{eq_bytes, eq_bytes_iff, eq_bytes_refl}
use realtime_go.Errors.{Reason, conn_connected, cannot_publish, socket_not_open}
use realtime_go.Wire.{ClientFrame, PublishFrame}
use realtime_go.Connection.{
  Connection, RequestKind, ack_request, history_request, fetch_request, failed_with, Effect,
  answer_publish, write_frame, kick_connect, bump,
}
use realtime_go.Connection.Lifecycle.{eq_conn}
use realtime_go.Connection.Requests.{waiting, set_waiting, send_request, request}
use realtime_go.Connection.Publishes.{is_queueable, keep_outstanding, publish_call}
use realtime_go.Connection.Ledger.{
  Item, a_publish, a_request, publish_answers, request_answers, answered, open_items,
}
use realtime_go.Connection.Ledger.Settled.{settle-IsSettled}
use realtime_go.Connection.Ledger.Operations.{Settles, Settles-tells, send_publish-Settles}

-- More is waited for than before.
abbrev Adds : (Item → ℕ) → Connection → Connection → Type 0
Adds started c d = (item : Item) → open_items item d ≡ started item + open_items item c

-- Every caller is answered or waited for that was, or that starts to be.
abbrev pub IsAccounted : (Item → ℕ) → Connection → Connection × List Effect → Type 0
IsAccounted started c r =
    (item : Item) → answered item r.1 + open_items item r.0 ≡ started item + open_items item c

after_added :
    (started : Item → ℕ) (c d : Connection) (r : Connection × List Effect)
    → Adds started c d
    → ((item : Item) → started item + open_items item c ≤ 1)
    → Settles d r
    → IsAccounted started c r
after_added started c d r h n k item = omega (arith, h item, k (λ i. omega (arith, h i, n i)) item)

waiting-Adds :
    (kind : RequestKind) (id : ℕ) (c : Connection)
    → ((item : Item) → request_answers item kind id + open_items item c ≤ 1)
    → Adds
        (λ item. request_answers item kind id)
        c
        (set_waiting kind (id ∷ discard ◌==◌ id (waiting kind c)) (record c { next_id = id }))
unfolding open_items
waiting-Adds ack_request id c n (a_publish k) = omega arith
waiting-Adds ack_request id c n (a_request ack_request j) =
    count_put ◌==◌ ==_iff j id c.pending (grind (arith, n (a_request ack_request id)))
waiting-Adds ack_request id c n (a_request history_request j) = omega arith
waiting-Adds ack_request id c n (a_request fetch_request j) = omega arith
waiting-Adds history_request id c n (a_publish k) = omega arith
waiting-Adds history_request id c n (a_request ack_request j) = omega arith
waiting-Adds history_request id c n (a_request history_request j) =
    count_put ◌==◌ ==_iff j id c.pending_hist (grind (arith, n (a_request history_request id)))
waiting-Adds history_request id c n (a_request fetch_request j) = omega arith
waiting-Adds fetch_request id c n (a_publish k) = omega arith
waiting-Adds fetch_request id c n (a_request ack_request j) = omega arith
waiting-Adds fetch_request id c n (a_request history_request j) = omega arith
waiting-Adds fetch_request id c n (a_request fetch_request j) =
    count_put ◌==◌ ==_iff j id c.pending_fetch (grind (arith, n (a_request fetch_request id)))

send_request-Settles :
    (ws : Option ℕ) (kind : RequestKind) (id : ℕ) (f : ClientFrame) (c : Connection)
    → Settles c (send_request ws kind id f c)
send_request-Settles none kind id f c = settle-IsSettled kind id (failed_with socket_not_open) c
send_request-Settles (some ws) kind id f c =
    Settles-tells c c (write_frame ws f) (λ item. refl) (λ item. refl)

pub request-IsAccounted :
    (kind : RequestKind) (build : ℕ → ClientFrame) (c : Connection)
    → ((item : Item) → request_answers item kind (bump c.next_id) + open_items item c ≤ 1)
    → IsAccounted (λ item. request_answers item kind (bump c.next_id)) c (request kind build c)
unfolding request
request-IsAccounted kind build c n =
    after_added _ c _ _ (waiting-Adds kind (bump c.next_id) c n) n
      (send_request-Settles c.socket kind (bump c.next_id) (build (bump c.next_id)) _)

keep_outstanding-Adds :
    (f : PublishFrame) (c : Connection)
    → ((item : Item) → publish_answers item f.message_id + open_items item c ≤ 1)
    → Adds (λ item. publish_answers item f.message_id) c (keep_outstanding f c)
unfolding open_items
keep_outstanding-Adds f c n (a_publish k) = rw (keys-delete eq_bytes f.message_id c.outstanding) (
    count_put eq_bytes eq_bytes_iff k f.message_id (keys c.outstanding)
      (grind (arith, n (a_publish f.message_id), eq_bytes_refl f.message_id)))
keep_outstanding-Adds f c n (a_request ack_request id) = omega arith
keep_outstanding-Adds f c n (a_request history_request id) = omega arith
keep_outstanding-Adds f c n (a_request fetch_request id) = omega arith

refused-IsAccounted :
    (f : PublishFrame) (e : Option Reason) (c : Connection)
    → IsAccounted
        (λ item. publish_answers item f.message_id)
        c
        (c, answer_publish f.message_id e ∷ [])
refused-IsAccounted f e c item = omega arith

pub publish_call-IsAccounted :
    (f : PublishFrame) (c : Connection)
    → ((item : Item) → publish_answers item f.message_id + open_items item c ≤ 1)
    → IsAccounted (λ item. publish_answers item f.message_id) c (publish_call f c)
unfolding publish_call
publish_call-IsAccounted f c n =
    let kept = keep_outstanding-Adds f c n in
    elim (Bool-cases (eq_conn c.state conn_connected)) [
      | inl e ↦
          rw e (
            after_added _ c _ _ kept n (send_publish-Settles f.message_id f (keep_outstanding f c)))
      | inr e ↦ rw e (elim (Bool-cases (c.opts.disable_queueing || not (is_queueable c.state))) [
        | inl q ↦
            rw q (refused-IsAccounted f (some (cannot_publish c.state c.opts.disable_queueing)) c)
        | inr q ↦ rw q (
            after_added _ c _ (keep_outstanding f c, kick_connect ∷ []) kept n
              (Settles-tells (keep_outstanding f c) (keep_outstanding f c) kick_connect
                (λ item. refl) (λ item. refl)))
      ])
    ]
