-- ===== src/Channel/Dedup/Window.antt =====
-- channel.go, `isDuplicate`: the state of the cache, and what it remembers.
use realtime_go.Common.{
  ℕ, suc, ◌+◌, ◌≤◌, ◌<◌, ◌≡◌, refl, sym, ◌∙◌, ap, subst, inl, inr, true, false, ◌||◌, List, [], ◌∷◌,
  ◌++◌, append_assoc, Bytes, arith, tests, length, length-append, ltb, if◌then◌else◌, Bool-cases,
}
use realtime_go.Channel.{Channel, Message, dedup_cache_max}
use realtime_go.Common.Strings.{eq_bytes, eq_bytes_refl, eq_bytes→eq}
use realtime_go.Channel.Dedup.{
  dedup_key, has_key, delete_key, evict, record_key, is_duplicate_key, is_duplicate,
}

eq_bytes_common : (x o k : Bytes) → eq_bytes x o ≡ true → eq_bytes x k ≡ true → eq_bytes o k ≡ true
eq_bytes_common x o k h j = subst (λ y. eq_bytes y k ≡ true) (eq_bytes→eq x o h) j

keys-append : (xs ys : List Bytes) → length (xs ++ ys) ≡ length xs + length ys
keys-append xs ys = length-append xs ys

has_key-append :
    (x : Bytes) (ks ls : List Bytes) → has_key x (ks ++ ls) ≡ has_key x ks || has_key x ls
unfolding has_key
has_key-append x [] ls = refl
has_key-append x (k ∷ ks) ls = ground (arith, has_key-append x ks ls)

has_key-delete_key :
    (x o : Bytes) (ks : List Bytes)
    → has_key x (delete_key o ks) ≡ (if eq_bytes x o then false else has_key x ks)
unfolding has_key delete_key
has_key-delete_key x o [] = ground arith
has_key-delete_key x o (k ∷ ks) =
    grind (arith, eq_bytes→eq o k, eq_bytes_common x o k, has_key-delete_key x o ks)

abbrev pub IsDistinct : List Bytes → Type 0
IsDistinct [] = Unit {0}
IsDistinct (k ∷ ks) = (has_key k ks ≡ false) × IsDistinct ks

IsDistinct-snoc :
    (ks : List Bytes) (key : Bytes)
    → IsDistinct ks
    → has_key key ks ≡ false
    → IsDistinct (ks ++ key ∷ [])
unfolding has_key
IsDistinct-snoc [] key d h = (refl, tt)
IsDistinct-snoc (k ∷ ks) key d h = (fresh, IsDistinct-snoc ks key d.1 (grind arith))
  where
    fresh : has_key k (ks ++ key ∷ []) ≡ false
    fresh = grind (arith, has_key-append k ks (key ∷ []), eq_bytes→eq, eq_bytes_refl, d.0)

-- The keys are those of the order in which they came, each once, and at most 8192.
pub record IsValid (ch : Channel) : Type 0 where
  pub bounded : length ch.seen_order ≤ dedup_cache_max
  pub distinct : IsDistinct ch.seen_order
  pub same : (x : Bytes) → has_key x ch.seen ≡ has_key x ch.seen_order

added_same :
    (key : Bytes) (seen order : List Bytes) (x : Bytes)
    → has_key x seen ≡ has_key x order
    → has_key x (key ∷ seen) ≡ has_key x (order ++ key ∷ [])
unfolding has_key
added_same key seen order x h = ground (arith, has_key-append x order (key ∷ []), h)

evicted_same :
    (o : Bytes) (seen rest : List Bytes) (x : Bytes)
    → IsDistinct (o ∷ rest)
    → has_key x seen ≡ has_key x (o ∷ rest)
    → has_key x (delete_key o seen) ≡ has_key x rest
unfolding has_key
evicted_same o seen rest x d h = grind (arith, has_key-delete_key x o seen, eq_bytes→eq x o, d.0, h)

evict-IsValid :
    (ch : Channel) (order : List Bytes)
    → ch.seen_order ≡ order
    → length order ≤ suc dedup_cache_max
    → IsDistinct order
    → ((x : Bytes) → has_key x ch.seen ≡ has_key x order)
    → dedup_cache_max < length order
    → IsValid (evict ch order)
unfolding evict
evict-IsValid ch [] e b d s l = absurd (omega arith)
evict-IsValid ch (o ∷ rest) e b d s l = record {
  bounded = omega arith;
  distinct = d.1;
  same = λ x. evicted_same o ch.seen rest x d (s x);
}

not_full : (n : ℕ) → ltb dedup_cache_max n ≡ false → n ≤ dedup_cache_max
not_full n h = ground arith

record_key-IsValid :
    (key : Bytes) (ch : Channel)
    → IsValid ch
    → has_key key ch.seen ≡ false
    → IsValid (record_key key ch)
unfolding record_key
record_key-IsValid key ch v fresh =
    let order = ch.seen_order ++ key ∷ [] in
    let len = keys-append ch.seen_order (key ∷ []) in
    let d = IsDistinct-snoc ch.seen_order key v.distinct (sym (v.same key) ∙ fresh) in
    let s = λ (x : Bytes). added_same key ch.seen ch.seen_order x (v.same x) in
    elim (Bool-cases (ltb dedup_cache_max (length order))) [
      | inl e ↦ rw e (
          evict-IsValid (record ch { seen = key ∷ ch.seen; seen_order = order }) order refl
            (omega (arith, v.bounded, len)) d s (omega (tests, e)))
      | inr e ↦ rw e (record { bounded = not_full _ e; distinct = d; same = s })
    ]

-- `isDuplicate` keeps the cache valid: it holds the keys of the insertion order, each once, and at
-- most 8192 of them.
pub is_duplicate-IsValid :
    (message : Message) (ch : Channel) → IsValid ch → IsValid (is_duplicate message ch).1
unfolding is_duplicate is_duplicate_key
is_duplicate-IsValid message ch v = elim (Bool-cases (has_key (dedup_key message) ch.seen)) [
  | inl e ↦ rw e v
  | inr e ↦ rw e (record_key-IsValid (dedup_key message) ch v e)
]

-- The cache after a run of messages.
unfoldable pub see_all : List Message → Channel → Channel
see_all [] ch = ch
see_all (m ∷ ms) ch = see_all ms (is_duplicate m ch).1

-- At most `n` keys came after `key`.
IsRecent : ℕ → Bytes → List Bytes → Type 0
IsRecent n key order =
    (front : List Bytes) × (back : List Bytes) × (order ≡ front ++ key ∷ back) × (length back ≤ n)

recent_key :
    (n : ℕ) (key : Bytes) (order : List Bytes) → IsRecent n key order → has_key key order ≡ true
unfolding IsRecent has_key
recent_key n key order (front, back, e, l) =
    rw e (grind (arith, has_key-append key front (key ∷ back), eq_bytes_refl key))

evict-IsRecent :
    (n : ℕ) (key : Bytes) (ch : Channel) (order front back : List Bytes)
    → order ≡ front ++ key ∷ back
    → length back ≤ n
    → n < dedup_cache_max
    → dedup_cache_max < length order
    → IsRecent n key (evict ch order).seen_order
unfolding IsRecent evict
evict-IsRecent n key ch order [] back e l h k =
    let len : length order ≡ suc (length back) = ap length e in absurd (omega (arith, len))
evict-IsRecent n key ch order (o ∷ front) back e l h k = rw e (front, back, refl, l)

record_key-IsRecent :
    (n : ℕ) (key other : Bytes) (ch : Channel) (front back : List Bytes)
    → ch.seen_order ++ other ∷ [] ≡ front ++ key ∷ back
    → length back ≤ n
    → n < dedup_cache_max
    → IsRecent n key (record_key other ch).seen_order
unfolding record_key
record_key-IsRecent n key other ch front back e l h =
    let order = ch.seen_order ++ other ∷ [] in
    elim (Bool-cases (ltb dedup_cache_max (length order))) [
      | inl full ↦ rw full (
          evict-IsRecent n key (record ch { seen = other ∷ ch.seen; seen_order = order }) order
            front back e l h (omega (tests, full)))
      | inr free ↦ rw free (unfold IsRecent in (front, back, e, l))
    ]

is_duplicate-IsRecent :
    (n : ℕ) (key : Bytes) (m : Message) (ch : Channel)
    → suc n < dedup_cache_max
    → IsRecent n key ch.seen_order
    → IsRecent (suc n) key (is_duplicate m ch).1.seen_order
unfolding is_duplicate is_duplicate_key IsRecent
is_duplicate-IsRecent n key m ch h (front, back, e, l) =
    elim (Bool-cases (has_key (dedup_key m) ch.seen)) [
      | inl old ↦ rw old (front, back, e, omega arith)
      | inr new ↦
          let whole : ch.seen_order ++ dedup_key m ∷ []
              ≡ front ++ key ∷ (back ++ dedup_key m ∷ []) =
            ap (λ order. order ++ dedup_key m ∷ []) e
            ∙ append_assoc front (key ∷ back) (dedup_key m ∷ []) in
          rw new (
            record_key-IsRecent (suc n) key (dedup_key m) ch front (back ++ dedup_key m ∷ []) whole
              (omega (arith, keys-append back (dedup_key m ∷ []))) h)
    ]

see_all-IsValid : (ms : List Message) (ch : Channel) → IsValid ch → IsValid (see_all ms ch)
unfolding see_all
see_all-IsValid [] ch v = v
see_all-IsValid (m ∷ ms) ch v = see_all-IsValid ms _ (is_duplicate-IsValid m ch v)

see_all-IsRecent :
    (ms : List Message) (n : ℕ) (key : Bytes) (ch : Channel)
    → n + length ms < dedup_cache_max
    → IsRecent n key ch.seen_order
    → IsRecent (n + length ms) key (see_all ms ch).seen_order
unfolding see_all
see_all-IsRecent [] n key ch h r = subst (λ k. IsRecent k key ch.seen_order) (omega arith) r
see_all-IsRecent (m ∷ ms) n key ch h r =
    subst (λ k. IsRecent k key (see_all ms (is_duplicate m ch).1).seen_order) (omega arith)
      (see_all-IsRecent ms (suc n) key (is_duplicate m ch).1 (omega arith)
        (is_duplicate-IsRecent n key m ch (omega arith) r))

known_key :
    (n : ℕ) (key : Bytes) (ch : Channel)
    → IsValid ch
    → IsRecent n key ch.seen_order
    → (is_duplicate_key key ch).0 ≡ true
unfolding is_duplicate_key
known_key n key ch v r = rw (v.same key ∙ recent_key n key ch.seen_order r) refl

new_key :
    (m : Message) (ch : Channel)
    → (is_duplicate m ch).0 ≡ false
    → IsRecent 0 (dedup_key m) (is_duplicate m ch).1.seen_order
unfolding is_duplicate is_duplicate_key
new_key m ch h = elim (Bool-cases (has_key (dedup_key m) ch.seen)) [
  | inl old ↦ ground arith
  | inr new ↦ rw new (
      record_key-IsRecent 0 (dedup_key m) (dedup_key m) ch ch.seen_order [] refl (omega arith)
        (omega arith))
]

-- On a valid cache, a message that is found new is a duplicate after fewer than 8192 further
-- messages, and so is every message with its client id and id.
pub is_duplicate_again :
    (m again : Message) (ms : List Message) (ch : Channel)
    → IsValid ch
    → (is_duplicate m ch).0 ≡ false
    → length ms < dedup_cache_max
    → again.client_id ≡ m.client_id
    → again.id ≡ m.id
    → (is_duplicate again (see_all ms (is_duplicate m ch).1)).0 ≡ true
unfolding is_duplicate
is_duplicate_again m again ms ch v h l c i =
    rw (c, i)
      (known_key (0 + length ms) (dedup_key m) _
        (see_all-IsValid ms _ (is_duplicate-IsValid m ch v))
        (see_all-IsRecent ms 0 (dedup_key m) _ (omega arith) (new_key m ch h)))
