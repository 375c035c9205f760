-- ===== src/Client/Registry/Instances.antt =====
-- realtime.go: a name keeps its instance until it is released.
use realtime_go.Common.{
  ℕ, ◌≡◌, refl, sym, ap, ◌∙◌, inl, inr, Bool, true, false, ◌&&◌, not, Option, none, some, List, [],
  ◌∷◌, Bytes, Bool-cases,
}
use realtime_go.Common.Maps.{find, find-delete_other}
use realtime_go.Common.Strings.{eq_bytes, eq_bytes_iff, eq_bytes_refl}
use realtime_go.Client.Registry.{
  Settings, Channels, get_found, get, release_found, release, Call, get_call, release_call,
  calls_made, valid_channel_name,
}

-- The calls that leave a name's instance alone.
abbrev pub keeps : Bytes → Call → Bool
keeps name (get_call other settings) = true
keeps name (release_call other) = not (eq_bytes name other)

abbrev pub all_keep : Bytes → List Call → Bool
all_keep name [] = true
all_keep name (call ∷ calls) = keeps name call && all_keep name calls

find-get_found :
    (name other : Bytes) (n : ℕ) (o : Option ℕ) (settings : Settings) (c : Channels)
    → find eq_bytes name c.by_name ≡ some n
    → o ≡ find eq_bytes other c.by_name
    → find eq_bytes name (get_found o other settings c).1.by_name ≡ some n
unfolding find
find-get_found name other n (some k) settings c h e = h
find-get_found name other n none settings c h e = elim (Bool-cases (eq_bytes name other)) [
  | inl d ↦ absurd (cc (e, h, ap (λ k. find eq_bytes k c.by_name) ((eq_bytes_iff name other).0 d)))
  | inr d ↦ rw d (find-delete_other eq_bytes eq_bytes_iff name other c.by_name d ∙ h)
]

find-get :
    (name other : Bytes) (n : ℕ) (settings : Settings) (c : Channels)
    → find eq_bytes name c.by_name ≡ some n
    → find eq_bytes name (get other settings c).1.by_name ≡ some n
unfolding get
find-get name other n settings c h = elim (Bool-cases (valid_channel_name other)) [
  | inl e ↦ rw e (find-get_found name other n _ settings c h refl)
  | inr e ↦ rw e h
]

find-release_found :
    (name other : Bytes) (n : ℕ) (o : Option ℕ) (c : Channels)
    → find eq_bytes name c.by_name ≡ some n
    → eq_bytes name other ≡ false
    → find eq_bytes name (release_found o other c).0.by_name ≡ some n
find-release_found name other n none c h e = h
find-release_found name other n (some k) c h e =
    find-delete_other eq_bytes eq_bytes_iff name other c.by_name e ∙ h

kept : (a b : Bool) → (not a && b) ≡ true → (a ≡ false) × (b ≡ true)
kept false b h = (refl, h)
kept true b h = absurd (cc h)

find-calls_made :
    (name : Bytes) (n : ℕ) (calls : List Call) (c : Channels)
    → find eq_bytes name c.by_name ≡ some n
    → all_keep name calls ≡ true
    → find eq_bytes name (calls_made calls c).by_name ≡ some n
unfolding calls_made release
find-calls_made name n [] c h k = h
find-calls_made name n (get_call other settings ∷ calls) c h k =
    find-calls_made name n calls _ (find-get name other n settings c h) k
find-calls_made name n (release_call other ∷ calls) c h k =
    let parts = kept (eq_bytes name other) (all_keep name calls) k in
    find-calls_made name n calls _ (find-release_found name other n _ c h parts.0) parts.1

get_found-find :
    (name : Bytes) (n : ℕ) (o : Option ℕ) (settings : Settings) (c : Channels)
    → o ≡ find eq_bytes name c.by_name
    → (get_found o name settings c).0 ≡ some n
    → find eq_bytes name (get_found o name settings c).1.by_name ≡ some n
unfolding find
get_found-find name n (some k) settings c e h = sym e ∙ h
get_found-find name n none settings c e h = rw (eq_bytes_refl name) h

get-find :
    (name : Bytes) (n : ℕ) (settings : Settings) (c : Channels)
    → (get name settings c).0 ≡ some n
    → (find eq_bytes name (get name settings c).1.by_name ≡ some n)
      × (valid_channel_name name ≡ true)
unfolding get
get-find name n settings c h = elim (Bool-cases (valid_channel_name name)) [
  | inl e ↦ rw e (get_found-find name n _ settings c refl (rw e at h), refl)
  | inr e ↦ absurd (cc (rw e at h))
]

get_again :
    (name : Bytes) (n : ℕ) (settings : Settings) (c : Channels)
    → valid_channel_name name ≡ true
    → find eq_bytes name c.by_name ≡ some n
    → get name settings c ≡ (some n, c)
unfolding get
get_again name n settings c v h = rw (v, h) refl

-- A name that was given an instance gets that instance again, whatever the options, and nothing new
-- is made, after any gets and releases of which none releases that name.
pub get-calls_made :
    (name : Bytes) (n : ℕ) (first later : Settings) (calls : List Call) (c : Channels)
    → (get name first c).0 ≡ some n
    → all_keep name calls ≡ true
    → let d = calls_made calls (get name first c).1 in get name later d ≡ (some n, d)
get-calls_made name n first later calls c h k =
    let given = get-find name n first c h in
    get_again name n later _ given.1 (find-calls_made name n calls _ given.0 k)
