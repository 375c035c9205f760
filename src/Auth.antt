-- ===== src/Auth.antt =====
-- auth.go: API keys and the tokens that they sign.
pub mod Keys
mod Tests
use realtime_go.Common.{
  ℕ, ◌+◌, ◌/◌, ◌%◌, ◌^◌, ◌-◌, Bool, true, false, Option, none, some, List, [], ◌∷◌, ◌++◌, Bytes,
  ◌==◌, if◌then◌else◌,
}
use realtime_go.Common.Int.{ℤ, pos, negsuc, int_of_u64}
use realtime_go.Common.Strings.{cut_at, has_byte}

-- ':' and '.'
abbrev pub colon : ℕ
colon = 58

abbrev pub dot : ℕ
dot = 46

pub data KeyResult : Type 0 where
  key_parts : Bytes → Bytes → KeyResult
  malformed_key malformed_key_name : KeyResult

abbrev named_key : Bytes → Bytes → KeyResult
named_key key_name secret =
    if has_byte dot key_name then key_parts key_name secret else malformed_key_name

-- A colon at the start or at the end is as bad as none.
abbrev pub checked_parts : Option (Bytes × Bytes) → KeyResult
checked_parts none = malformed_key
checked_parts (some ([], secret)) = malformed_key
checked_parts (some (c ∷ name, [])) = malformed_key
checked_parts (some (c ∷ name, d ∷ secret)) = named_key (c ∷ name) (d ∷ secret)

-- `splitAPIKey`
unfoldable pub split_api_key : Bytes → KeyResult
split_api_key key = checked_parts (cut_at colon key)

-- Durations are nanoseconds. `capability` is `none` for a nil map; JSON texts and the map are bytes.
pub record TokenParams : Type 0 where
  pub capability : Option Bytes
  pub capability_json : Bytes
  pub client_id : Bytes
  pub ttl : ℤ

pub data TokenResult : Type 0 where
  token : Bytes → TokenResult
  no_key no_client_key bad_key bad_key_name no_capability bad_capability bad_ttl : TokenResult

abbrev one_second : ℕ
one_second = 1000000000

-- `int64((ttl+time.Second-1)/time.Second)`: the sum on an int64, the quotient towards zero.
abbrev quotient : ℤ → ℤ
quotient (pos n) = pos (n / one_second)
quotient (negsuc n) = let q = (n + 1) / one_second in if q == 0 then pos 0 else negsuc (q - 1)

unfoldable pub lifetime : ℕ → ℤ
lifetime ttl = quotient (int_of_u64 ((ttl + one_second - 1) % 2 ^ 64))

-- JSON, base64 and HMAC are the standard library's: the header for a key name, the payload for a
-- subject, a capability and a lifetime from now, the capability map as JSON unless it fails, base64
-- without padding, and the signature of a text by a secret.
module _ (header_json : Bytes → Bytes) (payload_json : Bytes → Bytes → ℤ → Bytes)
    (marshal : Bytes → Option Bytes) (encode64 : Bytes → Bytes) (sign : Bytes → Bytes → Bytes) where
  abbrev signing_input : Bytes → TokenParams → Bytes → ℕ → Bytes
  signing_input key_name params capability ttl =
      encode64 (header_json key_name)
      ++ dot ∷ encode64 (payload_json params.client_id capability (lifetime ttl))

  abbrev signed : Bytes → Bytes → TokenResult
  signed secret input = token (input ++ dot ∷ encode64 (sign secret input))

  -- The lifetime: none given is an hour, and a negative one is refused.
  abbrev with_ttl : Bytes → Bytes → TokenParams → Bytes → ℤ → TokenResult
  with_ttl key_name secret params capability (negsuc n) = bad_ttl
  with_ttl key_name secret params capability (pos n) =
      signed secret (signing_input key_name params capability (if n == 0 then 3600000000000 else n))

  abbrev with_map : Bytes → Bytes → TokenParams → Option Bytes → TokenResult
  with_map key_name secret params none = bad_capability
  with_map key_name secret params (some capability) =
      with_ttl key_name secret params capability params.ttl

  abbrev with_capability : Bytes → Bytes → TokenParams → Option Bytes → Bytes → TokenResult
  with_capability key_name secret params capability (c ∷ json) =
      with_ttl key_name secret params (c ∷ json) params.ttl
  with_capability key_name secret params none [] = no_capability
  with_capability key_name secret params (some capability) [] =
      with_map key_name secret params (marshal capability)

  abbrev with_key : TokenParams → KeyResult → TokenResult
  with_key params malformed_key = bad_key
  with_key params malformed_key_name = bad_key_name
  with_key params (key_parts key_name secret) =
      with_capability key_name secret params params.capability params.capability_json

  -- The package's `CreateJWT`.
  unfoldable pub create_jwt : Bytes → TokenParams → TokenResult
  create_jwt [] params = no_key
  create_jwt (c ∷ key) params = with_key params (split_api_key (c ∷ key))

  -- `Auth.CreateJWT`, with the client's key.
  unfoldable pub auth_create_jwt : Bytes → TokenParams → TokenResult
  auth_create_jwt [] params = no_client_key
  auth_create_jwt (c ∷ key) params = create_jwt (c ∷ key) params
