-- ===== src/Crypto.antt =====
-- crypto.go: keys, and payloads as an IV, a ciphertext and a tag behind base64 and JSON.
pub mod Envelope
mod Tests
use realtime_go.Common.{
  ℕ, ◌+◌, ◌≤◌, Bool, true, false, ◌&&◌, ◌||◌, not, Option, none, some, List, [], ◌∷◌, ◌++◌, Bytes,
  length, take, drop, ltb, ◌==◌, if◌then◌else◌,
}
use realtime_go.Common.Strings.{eq_bytes}
use realtime_go.Channel.Convert.{cipher_token_256, cipher_token_128, is_cipher_encoding}

-- "/base64"
abbrev pub base64_suffix : Bytes
base64_suffix = 47 ∷ 98 ∷ 97 ∷ 115 ∷ 101 ∷ 54 ∷ 52 ∷ []

abbrev pub iv_bytes : ℕ
iv_bytes = 12

-- "aes-256-gcm"
abbrev pub aes_256_gcm : Bytes
aes_256_gcm = 97 ∷ 101 ∷ 115 ∷ 45 ∷ 50 ∷ 53 ∷ 54 ∷ 45 ∷ 103 ∷ 99 ∷ 109 ∷ []

pub record CipherParams : Type 0 where
  pub key : Bytes
  pub key_base64 : Bytes
  pub algorithm : Bytes

-- The key of the cipher, or which check failed.
pub data CipherResult : Type 0 where
  cipher_with : Bytes → CipherResult
  not_one_key bad_base64_key bad_key_length wrong_algorithm : CipherResult

abbrev pub expected_length : Bytes → ℕ
expected_length algorithm = if eq_bytes algorithm aes_256_gcm then 32 else 16

abbrev pub check_algorithm : Bytes → Bytes → CipherResult
check_algorithm [] key = cipher_with key
check_algorithm (c ∷ algorithm) key =
    if length key == expected_length (c ∷ algorithm) then cipher_with key else wrong_algorithm

abbrev pub check_key : Bytes → Option Bytes → CipherResult
check_key algorithm none = bad_base64_key
check_key algorithm (some key) =
    if length key == 16 || length key == 32 then check_algorithm algorithm key else bad_key_length

-- base64 is the standard library's.
module _ (decode64 : Bytes → Option Bytes) where
  abbrev pub choose_key : Bytes → Bytes → Bytes → CipherResult
  choose_key [] [] algorithm = not_one_key
  choose_key [] (c ∷ text) algorithm = check_key algorithm (decode64 (c ∷ text))
  choose_key (b ∷ key) [] algorithm = check_key algorithm (some (b ∷ key))
  choose_key (b ∷ key) (c ∷ text) algorithm = not_one_key

  -- `NewCipher`
  unfoldable pub new_cipher : CipherParams → CipherResult
  new_cipher params = choose_key params.key params.key_base64 params.algorithm

pub record EncryptResult : Type 0 where
  pub encoding : Bytes
  pub text : Bytes

abbrev pub cipher_token : Bytes → Bytes
cipher_token key = if length key == 32 then cipher_token_256 else cipher_token_128

-- What `Decrypt` returns: the plaintext, or which step failed.
pub data DecryptResult : Type 0 where
  plaintext : Bytes → DecryptResult
  not_cipher_encoding not_a_string bad_base64 too_short not_authentic : DecryptResult

-- The standard library's: base64, JSON strings, and AES-GCM with a key and an IV.
module _ (encode64 : Bytes → Bytes) (decode64 : Bytes → Option Bytes)
    (parse_string : Bytes → Option Bytes) (seal : Bytes → Bytes → Bytes → Bytes)
    (open_sealed : Bytes → Bytes → Bytes → Option Bytes) where
  -- `Encrypt` of a marshalled value, with the random IV.
  unfoldable pub encrypt : Bytes → Bytes → Bytes → EncryptResult
  encrypt key iv value = record {
    encoding = cipher_token key ++ base64_suffix;
    text = encode64 (iv ++ seal key iv value);
  }

  abbrev opened : Option Bytes → DecryptResult
  opened none = not_authentic
  opened (some text) = plaintext text

  abbrev pub open_blob : Bytes → Option Bytes → DecryptResult
  open_blob key none = bad_base64
  open_blob key (some blob) =
      if ltb (length blob) iv_bytes
      then too_short
      else opened (open_sealed key (take iv_bytes blob) (drop iv_bytes blob))

  abbrev open_text : Bytes → Option Bytes → DecryptResult
  open_text key none = not_a_string
  open_text key (some text) = open_blob key (decode64 text)

  -- `Decrypt`
  unfoldable pub decrypt : Bytes → Bytes → Bytes → DecryptResult
  decrypt key encoding content =
      if is_cipher_encoding encoding
      then open_text key (parse_string content)
      else not_cipher_encoding
