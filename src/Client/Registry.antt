-- ===== src/Client/Registry.antt =====
-- realtime.go: the registry of channels, one instance per name; wire.go: the names.
pub mod Instances
use realtime_go.Common.{
  ℕ, ◌+◌, Bool, true, false, ◌&&◌, ◌||◌, not, Option, none, some, List, [], ◌∷◌, ◌++◌, Bytes,
  length, ltb, leb, ◌==◌, if◌then◌else◌,
}
use realtime_go.Common.Maps.{find, delete, insert, keys}
use realtime_go.Common.Strings.{eq_bytes}
use realtime_go.Channel.{Cipher, BatchOptions, Channel, new_channel}

-- `[A-Za-z0-9:_-]`
abbrev between : ℕ → ℕ → ℕ → Bool
between low high c = leb low c && leb c high

abbrev is_name_byte : ℕ → Bool
is_name_byte c = between 65 90 c || between 97 122 c || between 48 58 c || c == 95 || c == 45

abbrev all_name_bytes : Bytes → Bool
all_name_bytes [] = true
all_name_bytes (c ∷ name) = is_name_byte c && all_name_bytes name

abbrev pub max_channel_name_length : ℕ
max_channel_name_length = 255

-- `validChannelName`
unfoldable pub valid_channel_name : Bytes → Bool
valid_channel_name [] = false
valid_channel_name (c ∷ name) =
    if ltb max_channel_name_length (length (c ∷ name)) || c == 58
    then false
    else all_name_bytes (c ∷ name)

pub record Settings : Type 0 where
  pub cipher : Option Cipher
  pub batch : Option BatchOptions

-- An instance is known by the number of those that were made before it.
pub record Channels : Type 0 where
  pub batch_default : Option BatchOptions
  pub by_name : List (Bytes × ℕ)
  pub made : List Channel

-- `none` is the panic on an invalid name.
abbrev pub Got : Type 0
Got = Option ℕ

abbrev batch_of : Option BatchOptions → Option BatchOptions → Option BatchOptions
batch_of none default = default
batch_of (some batch) default = some batch

abbrev get_found : Option ℕ → Bytes → Settings → Channels → Got × Channels
get_found (some n) name settings c = (some n, c)
get_found none name settings c = (
  some (length c.made),
  record c {
    by_name = insert eq_bytes name (length c.made) c.by_name;
    made =
        c.made ++ new_channel name settings.cipher (batch_of settings.batch c.batch_default) ∷ [];
  },
)

-- `Channels.Get`
unfoldable pub get : Bytes → Settings → Channels → Got × Channels
get name settings c =
    if valid_channel_name name
    then get_found (find eq_bytes name c.by_name) name settings c
    else (none, c)

-- What a release does to the instance and the connection.
pub data Release : Type 0 where
  unregister : Bytes → Release
  dispose : ℕ → Release
  start_detach : ℕ → Release

abbrev release_found : Option ℕ → Bytes → Channels → Channels × List Release
release_found none name c = (c, [])
release_found (some n) name c = (
  record c { by_name = delete eq_bytes name c.by_name },
  unregister name ∷ dispose n ∷ start_detach n ∷ [],
)

-- `Channels.Release`
unfoldable pub release : Bytes → Channels → Channels × List Release
release name c = release_found (find eq_bytes name c.by_name) name c

unfoldable pub release_all : List Bytes → Channels → Channels × List Release
release_all [] c = (c, [])
release_all (name ∷ names) c =
    let (c1, out1) = release name c in let (c2, out2) = release_all names c1 in (c2, out1 ++ out2)

-- `Client.Close`, before it closes the connection.
unfoldable pub close_channels : Channels → Channels × List Release
close_channels c = release_all (keys c.by_name) c

pub data Call : Type 0 where
  get_call : Bytes → Settings → Call
  release_call : Bytes → Call

unfoldable pub calls_made : List Call → Channels → Channels
calls_made [] c = c
calls_made (get_call name settings ∷ calls) c = calls_made calls (get name settings c).1
calls_made (release_call name ∷ calls) c = calls_made calls (release name c).0
