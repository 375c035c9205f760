-- ===== src/Channel/Dedup.antt =====
-- channel.go: the cache of delivered messages, for exactly-once delivery.
pub mod Window
use realtime_go.Common.{
  ℕ, suc, Bool, true, false, List, [], ◌∷◌, ◌++◌, Bytes, length, drop, ltb, if◌then◌else◌,
}
use realtime_go.Channel.{Channel, Message, dedup_cache_max}
use realtime_go.Common.Strings.{eq_bytes}

-- The key of a message: client id, NUL, message id.
abbrev pub dedup_key : Message → Bytes
dedup_key message = message.client_id ++ 0 ∷ message.id

-- `seen` is a Go map with no values: its keys.
unfoldable pub has_key : Bytes → List Bytes → Bool
has_key key [] = false
has_key key (k ∷ ks) = if eq_bytes key k then true else has_key key ks

unfoldable pub delete_key : Bytes → List Bytes → List Bytes
delete_key key [] = []
delete_key key (k ∷ ks) = let rest = delete_key key ks in if eq_bytes key k then rest else k ∷ rest

-- The eviction of `isDuplicate`, for the order in which the keys came.
unfoldable pub evict : Channel → List Bytes → Channel
evict ch [] = ch
evict ch (oldest ∷ order) = record ch { seen = delete_key oldest ch.seen; seen_order = order }

-- A new key is recorded, and the oldest is evicted past the cap.
unfoldable pub record_key : Bytes → Channel → Channel
record_key key ch =
    let added : Channel = record ch {
      seen = key ∷ ch.seen;
      seen_order = ch.seen_order ++ key ∷ [];
    } in
    if ltb dedup_cache_max (length added.seen_order) then evict added added.seen_order else added

unfoldable pub is_duplicate_key : Bytes → Channel → Bool × Channel
is_duplicate_key key ch = if has_key key ch.seen then (true, ch) else (false, record_key key ch)

unfoldable pub is_duplicate : Message → Channel → Bool × Channel
is_duplicate message ch = is_duplicate_key (dedup_key message) ch
