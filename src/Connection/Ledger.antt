-- ===== src/Connection/Ledger.antt =====
-- connection.go: an account of the requests and publishes that callers wait for.
pub mod Settled
pub mod Operations
pub mod Frames
pub mod Attempts
pub mod Calls
pub mod Account
use realtime_go.Common.{
  ℕ, zero, suc, ◌+◌, ◌≤◌, ◌≡◌, refl, sym, ◌∙◌, ap, Bool, true, false, ◌&&◌, Option, none, some,
  List, [], ◌∷◌, ◌++◌, map, Bytes, arith, ◌==◌, if◌then◌else◌,
}
use realtime_go.Common.Maps.{keys, count}
use realtime_go.Common.Strings.{eq_bytes}
use realtime_go.Connection.{
  Connection, RequestKind, ack_request, history_request, fetch_request, Effect, answer,
  answer_publish,
}
use realtime_go.Connection.Requests.{waiting}

-- What a caller waits for: the answer to a publish, by message id, or to a request.
pub data Item : Type 0 where
  a_publish : Bytes → Item
  a_request : RequestKind → ℕ → Item

abbrev pub kind_code : RequestKind → ℕ
kind_code ack_request = 0
kind_code history_request = 1
kind_code fetch_request = 2

abbrev pub same_request : RequestKind → ℕ → RequestKind → ℕ → Bool
same_request kind id kind2 id2 = (kind_code kind == kind_code kind2) && (id == id2)

abbrev once : Bool → ℕ
once b = if b then 1 else 0

abbrev pub publish_answers : Item → Bytes → ℕ
publish_answers (a_publish k) key = once (eq_bytes k key)
publish_answers (a_request kind id) key = 0

abbrev pub request_answers : Item → RequestKind → ℕ → ℕ
request_answers (a_publish k) kind id = 0
request_answers (a_request kind2 id2) kind id = once (same_request kind2 id2 kind id)

-- How many of a caller's answers an effect is.
abbrev pub answers_of : Item → Effect → ℕ
answers_of item (answer_publish key e) = publish_answers item key
answers_of item (answer kind id outcome) = request_answers item kind id
answers_of item e = 0

abbrev pub answered : Item → List Effect → ℕ
answered item [] = 0
answered item (e ∷ out) = answers_of item e + answered item out

-- Whether the caller is still waited for, by a connection: 1, or 0 when it is not.
unfoldable pub open_items : Item → Connection → ℕ
open_items (a_publish k) c = count eq_bytes k (keys c.outstanding)
open_items (a_request kind id) c = count ◌==◌ id (waiting kind c)

pub answered-append :
    (item : Item) (xs ys : List Effect)
    → answered item (xs ++ ys) ≡ answered item xs + answered item ys
answered-append item [] ys = omega arith
answered-append item (e ∷ xs) ys = omega (arith, answered-append item xs ys)

-- Nothing is waited for twice.
abbrev pub IsOnce : Connection → Type 0
IsOnce c = (item : Item) → open_items item c ≤ 1

-- Every caller that stops being waited for has been answered, once, and no other.
abbrev pub IsSettled : Connection → Connection × List Effect → Type 0
IsSettled c r = (item : Item) → answered item r.1 + open_items item r.0 ≡ open_items item c

pub IsSettled-IsOnce :
    (c : Connection) (r : Connection × List Effect) → IsSettled c r → IsOnce c → IsOnce r.0
IsSettled-IsOnce c r s o item = omega (arith, s item, o item)

pub IsSettled-append :
    (c d : Connection) (e : Connection) (xs ys : List Effect)
    → IsSettled c (d, xs)
    → IsSettled d (e, ys)
    → IsSettled c (e, xs ++ ys)
IsSettled-append c d e xs ys h k item = omega (arith, answered-append item xs ys, h item, k item)
