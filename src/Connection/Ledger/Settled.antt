-- ===== src/Connection/Ledger/Settled.antt =====
-- connection.go: the account over settling, failing and sending.
use realtime_go.Common.{
  ℕ, ◌+◌, ◌≡◌, refl, ◌∙◌, ap, inl, inr, true, Option, none, some, List, [], ◌∷◌, ◌++◌, map, Bytes,
  arith, ◌==◌, ==_iff, if◌then◌else◌, Bool-cases,
}
use realtime_go.Common.Maps.{keys, find, count, member, discard, delete, count_taken, keys-delete}
use realtime_go.Common.Strings.{eq_bytes, eq_bytes_iff}
use realtime_go.Errors.{Reason}
use realtime_go.Connection.{
  Connection, RequestKind, ack_request, history_request, fetch_request, Outcome, failed_with,
  Effect, answer, answer_publish,
}
use realtime_go.Connection.Requests.{waiting, set_waiting, settle, fail_kind, fail_pending}
use realtime_go.Connection.Publishes.{
  settle_message, settle_found, settle_publish, fail_outstanding,
}
use realtime_go.Connection.Ledger.{
  Item, a_publish, a_request, kind_code, answered, open_items, answered-append, IsOnce, IsSettled,
}

taken-IsSettled :
    (kind : RequestKind) (id : ℕ) (outcome : Outcome) (c : Connection)
    → IsOnce c
    → member ◌==◌ id (waiting kind c) ≡ true
    → IsSettled c
        (set_waiting kind (discard ◌==◌ id (waiting kind c)) c, answer kind id outcome ∷ [])
unfolding open_items
taken-IsSettled ack_request id outcome c o m (a_publish k) = omega arith
taken-IsSettled ack_request id outcome c o m (a_request ack_request j) =
    omega (arith, count_taken ◌==◌ ==_iff j id c.pending m (o (a_request ack_request id)))
taken-IsSettled ack_request id outcome c o m (a_request history_request j) = omega arith
taken-IsSettled ack_request id outcome c o m (a_request fetch_request j) = omega arith
taken-IsSettled history_request id outcome c o m (a_publish k) = omega arith
taken-IsSettled history_request id outcome c o m (a_request ack_request j) = omega arith
taken-IsSettled history_request id outcome c o m (a_request history_request j) =
    omega (arith, count_taken ◌==◌ ==_iff j id c.pending_hist m (o (a_request history_request id)))
taken-IsSettled history_request id outcome c o m (a_request fetch_request j) = omega arith
taken-IsSettled fetch_request id outcome c o m (a_publish k) = omega arith
taken-IsSettled fetch_request id outcome c o m (a_request ack_request j) = omega arith
taken-IsSettled fetch_request id outcome c o m (a_request history_request j) = omega arith
taken-IsSettled fetch_request id outcome c o m (a_request fetch_request j) =
    omega (arith, count_taken ◌==◌ ==_iff j id c.pending_fetch m (o (a_request fetch_request id)))

-- Nothing happens to those that wait.
pub quiet-IsSettled : (c : Connection) → IsSettled c (c, [])
quiet-IsSettled c item = omega arith

pub settle-IsSettled :
    (kind : RequestKind) (id : ℕ) (outcome : Outcome) (c : Connection)
    → IsOnce c
    → IsSettled c (settle kind id outcome c)
unfolding settle
settle-IsSettled kind id outcome c o = elim (Bool-cases (member ◌==◌ id (waiting kind c))) [
  | inl e ↦ rw e (taken-IsSettled kind id outcome c o e)
  | inr e ↦ rw e (quiet-IsSettled c)
]

-- Other fields, and what is in a publish, play no role.
pub same_items :
    (c d : Connection) (item : Item)
    → d.pending ≡ c.pending
    → d.pending_hist ≡ c.pending_hist
    → d.pending_fetch ≡ c.pending_fetch
    → keys d.outstanding ≡ keys c.outstanding
    → open_items item d ≡ open_items item c
unfolding open_items
same_items c d (a_publish k) e f g h = ap (count eq_bytes k) h
same_items c d (a_request ack_request id) e f g h = ap (count ◌==◌ id) e
same_items c d (a_request history_request id) e f g h = ap (count ◌==◌ id) f
same_items c d (a_request fetch_request id) e f g h = ap (count ◌==◌ id) g

no_publish_failed :
    (k : Bytes) (kind : RequestKind) (e : Reason) (ids : List ℕ)
    → answered (a_publish k) (map (λ id. answer kind id (failed_with e)) ids) ≡ 0
no_publish_failed k kind e [] = refl
no_publish_failed k kind e (id ∷ ids) = omega (arith, no_publish_failed k kind e ids)

requests_failed :
    (kind2 : RequestKind) (j : ℕ) (kind : RequestKind) (e : Reason) (ids : List ℕ)
    → answered (a_request kind2 j) (map (λ id. answer kind id (failed_with e)) ids)
      ≡ (if kind_code kind2 == kind_code kind then count ◌==◌ j ids else 0)
unfolding count
requests_failed kind2 j kind e [] = ground arith
requests_failed kind2 j kind e (id ∷ ids) = ground (arith, requests_failed kind2 j kind e ids)

answered_three :
    (item : Item) (xs ys zs : List Effect)
    → answered item (xs ++ (ys ++ zs)) ≡ answered item xs + answered item ys + answered item zs
answered_three item xs ys zs =
    omega (arith, answered-append item xs (ys ++ zs), answered-append item ys zs)

pub fail_pending-IsSettled : (e : Reason) (c : Connection) → IsSettled c (fail_pending e c)
unfolding fail_pending fail_kind open_items count
fail_pending-IsSettled e c (a_publish k) = omega (
  arith,
  answered_three (a_publish k) _ _ _,
  no_publish_failed k ack_request e c.pending,
  no_publish_failed k history_request e c.pending_hist,
  no_publish_failed k fetch_request e c.pending_fetch,
)
fail_pending-IsSettled e c (a_request ack_request j) = omega (
  arith,
  answered_three (a_request ack_request j) _ _ _,
  requests_failed ack_request j ack_request e c.pending,
  requests_failed ack_request j history_request e c.pending_hist,
  requests_failed ack_request j fetch_request e c.pending_fetch,
)
fail_pending-IsSettled e c (a_request history_request j) = omega (
  arith,
  answered_three (a_request history_request j) _ _ _,
  requests_failed history_request j ack_request e c.pending,
  requests_failed history_request j history_request e c.pending_hist,
  requests_failed history_request j fetch_request e c.pending_fetch,
)
fail_pending-IsSettled e c (a_request fetch_request j) = omega (
  arith,
  answered_three (a_request fetch_request j) _ _ _,
  requests_failed fetch_request j ack_request e c.pending,
  requests_failed fetch_request j history_request e c.pending_hist,
  requests_failed fetch_request j fetch_request e c.pending_fetch,
)

no_request_failed :
    (kind : RequestKind) (j : ℕ) (e : Option Reason) (ks : List Bytes)
    → answered (a_request kind j) (map (λ key. answer_publish key e) ks) ≡ 0
no_request_failed kind j e [] = refl
no_request_failed kind j e (k ∷ ks) = omega (arith, no_request_failed kind j e ks)

publishes_failed :
    (k : Bytes) (e : Option Reason) (ks : List Bytes)
    → answered (a_publish k) (map (λ key. answer_publish key e) ks) ≡ count eq_bytes k ks
unfolding count
publishes_failed k e [] = refl
publishes_failed k e (j ∷ ks) = ground (arith, publishes_failed k e ks)

pub fail_outstanding-IsSettled : (e : Reason) (c : Connection) → IsSettled c (fail_outstanding e c)
unfolding fail_outstanding open_items count
fail_outstanding-IsSettled e c (a_publish k) =
    omega (arith, publishes_failed k (some e) (keys c.outstanding))
fail_outstanding-IsSettled e c (a_request ack_request j) =
    omega (arith, no_request_failed ack_request j (some e) (keys c.outstanding))
fail_outstanding-IsSettled e c (a_request history_request j) =
    omega (arith, no_request_failed history_request j (some e) (keys c.outstanding))
fail_outstanding-IsSettled e c (a_request fetch_request j) =
    omega (arith, no_request_failed fetch_request j (some e) (keys c.outstanding))

taken_message :
    (key : Bytes) (e : Option Reason) (c : Connection)
    → IsOnce c
    → member eq_bytes key (keys c.outstanding) ≡ true
    → IsSettled c
        (record c { outstanding = delete eq_bytes key c.outstanding }, answer_publish key e ∷ [])
unfolding open_items
taken_message key e c o m (a_publish k) = omega (
  arith,
  count_taken eq_bytes eq_bytes_iff k key (keys c.outstanding) m (o (a_publish key)),
  ap (count eq_bytes k) (keys-delete eq_bytes key c.outstanding),
)
taken_message key e c o m (a_request ack_request j) = omega arith
taken_message key e c o m (a_request history_request j) = omega arith
taken_message key e c o m (a_request fetch_request j) = omega arith

settle_message-IsSettled :
    (key : Bytes) (e : Option Reason) (c : Connection)
    → IsOnce c
    → IsSettled c (settle_message key e c)
unfolding settle_message
settle_message-IsSettled key e c o = elim (Bool-cases (member eq_bytes key (keys c.outstanding))) [
  | inl m ↦ rw m (taken_message key e c o m)
  | inr m ↦ rw m (quiet-IsSettled c)
]

-- A change that leaves alone who waits, before an operation.
pub after_change :
    (c d : Connection) (r : Connection × List Effect)
    → ((item : Item) → open_items item d ≡ open_items item c)
    → (IsOnce d → IsSettled d r)
    → IsOnce c
    → IsSettled c r
after_change c d r h k o item = k (λ i. omega (arith, h i, o i)) item ∙ h item

settle_found-IsSettled :
    (found : Option Bytes) (id : ℕ) (e : Option Reason) (c : Connection)
    → IsOnce c
    → IsSettled c (settle_found found id e c).1
settle_found-IsSettled none id e c o = quiet-IsSettled c
settle_found-IsSettled (some key) id e c o =
    after_change c (record c { publish_request_ids = delete ◌==◌ id c.publish_request_ids }) _
      (λ i. same_items c _ i refl refl refl refl) (settle_message-IsSettled key e _) o

pub settle_publish-IsSettled :
    (id : ℕ) (e : Option Reason) (c : Connection) → IsOnce c → IsSettled c (settle_publish id e c).1
unfolding settle_publish
settle_publish-IsSettled id e c o =
    settle_found-IsSettled (find ◌==◌ id c.publish_request_ids) id e c o
