-- ===== src/Channel/Convert.antt =====
-- channel.go: frames turned into delivered messages, and decryption.
use realtime_go.Common.{
  ℕ, zero, suc, ◌+◌, ◌/◌, ◌%◌, Bool, true, false, ◌||◌, Option, none, some, List, [], ◌∷◌, ◌++◌,
  Bytes, ltb, ◌==◌, if◌then◌else◌,
}
use realtime_go.Common.Int.{int_of_u64}
use realtime_go.Common.Strings.{eq_bytes}
use realtime_go.Wire.{WireMember, MsgFrame}
use realtime_go.Channel.{Message, Cipher}

-- The decimal digits of `fmt`'s %d, the last one first into `digits`. An int has at most 19.
decimal_loop : ℕ → ℕ → Bytes → Bytes
decimal_loop zero n digits = digits
decimal_loop (suc fuel) n digits = elim (ltb n 10) [
  | true ↦ (48 + n) ∷ digits
  | false ↦ decimal_loop fuel (n / 10) ((48 + n % 10) ∷ digits)
]

unfoldable pub decimal : ℕ → Bytes
unfolding decimal_loop
decimal n = decimal_loop 20 n []

unfoldable pub frame_to_message : MsgFrame → Message
frame_to_message frame = record {
  channel = frame.channel;
  name = frame.name;
  payload = frame.payload;
  timestamp = int_of_u64 frame.timestamp;
  id = frame.message_id;
  client_id = frame.client_id;
  encoding = frame.encoding;
  serial = frame.seq;
  ephemeral = frame.ephemeral;
}

-- The id is "<batchId>:<index>", and a member has no serial of its own.
unfoldable pub member_message : MsgFrame → ℕ → WireMember → Message
member_message base index member = record {
  channel = base.channel;
  name = member.name;
  payload = member.payload;
  timestamp = int_of_u64 base.timestamp;
  id = base.message_id ++ 58 ∷ decimal index;
  client_id = base.client_id;
  encoding = member.encoding;
  serial = 0;
  ephemeral = base.ephemeral;
}

-- `for index := range frame.members { ... }`, from `index` on.
unfoldable pub member_messages : MsgFrame → ℕ → List WireMember → List Message
member_messages base index [] = []
member_messages base index (m ∷ ms) =
    member_message base index m ∷ member_messages base (suc index) ms

-- The messages of a frame whose member list is the second argument.
unfoldable pub expand_members : MsgFrame → List WireMember → List Message
expand_members frame [] = frame_to_message frame ∷ []
expand_members frame (m ∷ ms) = member_messages frame 0 (m ∷ ms)

unfoldable pub expand_frame : MsgFrame → List Message
expand_frame frame = expand_members frame frame.members

-- "cipher+aes-256-gcm" and "cipher+aes-128-gcm".
abbrev pub cipher_token_256 : Bytes
cipher_token_256 =
    99 ∷ 105 ∷ 112 ∷ 104 ∷ 101 ∷ 114 ∷ 43 ∷ 97 ∷ 101 ∷ 115 ∷ 45 ∷ 50 ∷ 53 ∷ 54 ∷ 45 ∷ 103 ∷ 99 ∷ 109
    ∷ []

abbrev pub cipher_token_128 : Bytes
cipher_token_128 =
    99 ∷ 105 ∷ 112 ∷ 104 ∷ 101 ∷ 114 ∷ 43 ∷ 97 ∷ 101 ∷ 115 ∷ 45 ∷ 49 ∷ 50 ∷ 56 ∷ 45 ∷ 103 ∷ 99 ∷ 109
    ∷ []

abbrev is_cipher_token : Bytes → Bool
is_cipher_token token = eq_bytes token cipher_token_256 || eq_bytes token cipher_token_128

-- The tokens between '/' (47), the one being read in front.
some_token : Bytes → Bytes → Bool
unfolding eq_bytes
some_token token [] = is_cipher_token token
some_token token (x ∷ rest) = elim (x == 47) [
  | true ↦ is_cipher_token token || some_token [] rest
  | false ↦ some_token (token ++ x ∷ []) rest
]

unfoldable pub is_cipher_encoding : Bytes → Bool
unfolding some_token
is_cipher_encoding [] = false
is_cipher_encoding (x ∷ encoding) = some_token [] (x ∷ encoding)

-- `decryptMessage`, once the plaintext is known.
abbrev with_plaintext : Message → Option Bytes → Option Message
with_plaintext message none = none
with_plaintext message (some plaintext) =
    some (record message { payload = plaintext; encoding = [] })

-- `none` is an error.
unfoldable pub decrypt_message : Cipher → Message → Option Message
decrypt_message cipher message =
    if is_cipher_encoding message.encoding
    then with_plaintext message (cipher.decrypt message.encoding message.payload)
    else some message
