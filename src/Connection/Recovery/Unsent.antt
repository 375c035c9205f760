-- ===== src/Connection/Recovery/Unsent.antt =====
-- connection.go: publishes that are outstanding and not in flight.
use realtime_go.Common.{
  ◌≡◌, refl, ap, ◌∙◌, inl, inr, false, All, List, [], ◌∷◌, Bytes, ◌==◌, if◌then◌else◌, Bool-cases,
}
use realtime_go.Common.Maps.{keys, member, delete}
use realtime_go.Common.Strings.{eq_bytes}
use realtime_go.Connection.{OutstandingPublish}
use realtime_go.Connection.Publishes.{buffered, clear_request_id}
use realtime_go.Connection.Closing.{unsent_all}
use realtime_go.Connection.Recovery.{frames_of, sent_frame}

-- Between two connections: the frames `fs` under the message ids `ks` wait to be sent, none of them in
-- flight, and the client reconnects and keeps publishes.

pub buffered_unsent :
    (m : List (Bytes × OutstandingPublish)) → All (λ e. e.1.request_id ≡ 0) m → buffered m ≡ m
unfolding buffered
buffered_unsent [] h = refl
buffered_unsent (e ∷ m) (h, hs) =
    ap (λ n. if n == 0 then e ∷ buffered m else buffered m) h ∙ ap (◌∷◌ e) (buffered_unsent m hs)

pub unsent_all-unsent :
    (m : List (Bytes × OutstandingPublish)) → All (λ e. e.1.request_id ≡ 0) (unsent_all m)
unfolding unsent_all
unsent_all-unsent [] = tt
unsent_all-unsent (e ∷ m) = (refl, unsent_all-unsent m)

pub unsent_all-frames_of :
    (m : List (Bytes × OutstandingPublish)) → frames_of (unsent_all m) ≡ frames_of m
unfolding unsent_all
unsent_all-frames_of [] = refl
unsent_all-frames_of (e ∷ m) = ap (◌∷◌ (sent_frame e.1.frame)) (unsent_all-frames_of m)

pub unsent_all-keys : (m : List (Bytes × OutstandingPublish)) → keys (unsent_all m) ≡ keys m
unfolding unsent_all
unsent_all-keys [] = refl
unsent_all-keys (e ∷ m) = ap (◌∷◌ e.0) (unsent_all-keys m)

pub clear_request_id-unsent :
    (key : Bytes) (m : List (Bytes × OutstandingPublish))
    → All (λ e. e.1.request_id ≡ 0) m
    → All (λ e. e.1.request_id ≡ 0) (clear_request_id key m)
unfolding clear_request_id
clear_request_id-unsent key [] h = tt
clear_request_id-unsent key (e ∷ m) (h, hs) = elim (Bool-cases (eq_bytes key e.0)) [
  | inl d ↦ rw d (refl, clear_request_id-unsent key m hs)
  | inr d ↦ rw d (h, clear_request_id-unsent key m hs)
]

pub clear_request_id-frames_of :
    (key : Bytes) (m : List (Bytes × OutstandingPublish))
    → frames_of (clear_request_id key m) ≡ frames_of m
unfolding clear_request_id
clear_request_id-frames_of key [] = refl
clear_request_id-frames_of key (e ∷ m) =
    let rest = ap (◌∷◌ (sent_frame e.1.frame)) (clear_request_id-frames_of key m) in
    elim (Bool-cases (eq_bytes key e.0)) [ inl d ↦ rw d rest | inr d ↦ rw d rest ]

pub clear_request_id-keys :
    (key : Bytes) (m : List (Bytes × OutstandingPublish)) → keys (clear_request_id key m) ≡ keys m
unfolding clear_request_id
clear_request_id-keys key [] = refl
clear_request_id-keys key (e ∷ m) =
    let rest = ap (◌∷◌ e.0) (clear_request_id-keys key m) in
    elim (Bool-cases (eq_bytes key e.0)) [ inl d ↦ rw d rest | inr d ↦ rw d rest ]

pub delete_absent :
    (key : Bytes) (m : List (Bytes × OutstandingPublish))
    → member eq_bytes key (keys m) ≡ false
    → delete eq_bytes key m ≡ m
unfolding delete member
delete_absent key [] h = refl
delete_absent key (e ∷ m) h = elim (Bool-cases (eq_bytes key e.0)) [
  | inl d ↦ absurd (cc (rw d at h))
  | inr d ↦ rw d (ap (◌∷◌ e) (delete_absent key m (rw d at h)))
]
