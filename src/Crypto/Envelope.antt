-- ===== src/Crypto/Envelope.antt =====
-- crypto.go: what was encrypted is decrypted again, and which keys a cipher has.
use realtime_go.Common.{
  ◌≡◌, ◌⊎◌, refl, inl, inr, Bool, true, false, Option, none, some, [], ◌∷◌, ◌++◌, Bytes, length,
  length-append, take, drop, arith, take-length_append, drop-length_append, ltb, ◌==◌, ==_iff,
  if◌then◌else◌, subst, Bool-cases,
}
use realtime_go.Common.Strings.{eq_bytes}
use realtime_go.Channel.Convert.{cipher_token_256, cipher_token_128, is_cipher_encoding}
use realtime_go.Crypto.{
  CipherParams, cipher_with, check_key, check_algorithm, choose_key, expected_length, new_cipher,
  aes_256_gcm, base64_suffix, iv_bytes, encrypt, plaintext, open_blob, decrypt,
}

encrypted-is_cipher_encoding :
    (b : Bool)
    → is_cipher_encoding ((if b then cipher_token_256 else cipher_token_128) ++ base64_suffix)
      ≡ true
unfolding is_cipher_encoding
encrypted-is_cipher_encoding true = refl
encrypted-is_cipher_encoding false = refl

module _ (encode64 : Bytes → Bytes) (decode64 : Bytes → Option Bytes)
    (parse_string : Bytes → Option Bytes) (seal : Bytes → Bytes → Bytes → Bytes)
    (open_sealed : Bytes → Bytes → Bytes → Option Bytes) where
  split-blob :
      (key iv value : Bytes)
      → length iv ≡ iv_bytes
      → open_sealed key iv (seal key iv value) ≡ some value
      → open_blob encode64 decode64 parse_string seal open_sealed key
          (some (iv ++ seal key iv value))
        ≡ plaintext value
  split-blob key iv value l h =
      let sealed = seal key iv value in
      let front : take iv_bytes (iv ++ sealed) ≡ iv =
        subst (λ n. take n (iv ++ sealed) ≡ iv) l (take-length_append iv sealed) in
      let back : drop iv_bytes (iv ++ sealed) ≡ sealed =
        subst (λ n. drop n (iv ++ sealed) ≡ sealed) l (drop-length_append iv sealed) in
      let long : ltb (length (iv ++ sealed)) iv_bytes ≡ false =
        ground (arith, length-append iv sealed, l) in
      rw (long, front, back, h) refl

  -- What a cipher encrypts under an IV of 12 bytes, it decrypts to the same value, from any JSON
  -- text that stands for the data that it gave. For a base64 that decodes what it encodes, and an
  -- AES-GCM that opens what it sealed with the same key and IV.
  pub decrypt-encrypt :
      (key iv value content : Bytes)
      → ((b : Bytes) → decode64 (encode64 b) ≡ some b)
      → open_sealed key iv (seal key iv value) ≡ some value
      → length iv ≡ iv_bytes
      → parse_string content
        ≡ some (encrypt encode64 decode64 parse_string seal open_sealed key iv value).text
      → decrypt encode64 decode64 parse_string seal open_sealed key
          (encrypt encode64 decode64 parse_string seal open_sealed key iv value).encoding
          content
        ≡ plaintext value
  unfolding encrypt decrypt
  decrypt-encrypt key iv value content h64 hopen l p =
      rw (encrypted-is_cipher_encoding (length key == 32), p, h64 (iv ++ seal key iv value))
        (split-blob key iv value l hopen)

-- A key of AES-128 or AES-256, and of AES-256 when that is the algorithm that was asked for.
abbrev pub IsGoodKey : Bytes → Bytes → Type 0
IsGoodKey algorithm key =
    ((length key ≡ 16) ⊎ (length key ≡ 32))
    × ((eq_bytes algorithm aes_256_gcm ≡ false) ⊎ (length key ≡ 32))

no_algorithm : eq_bytes [] aes_256_gcm ≡ false
unfolding eq_bytes
no_algorithm = refl

check_algorithm-IsGoodKey :
    (algorithm key k : Bytes)
    → (length key ≡ 16) ⊎ (length key ≡ 32)
    → check_algorithm algorithm key ≡ cipher_with k
    → IsGoodKey algorithm k
check_algorithm-IsGoodKey [] key k h e =
    let same : key ≡ k = cc e in
    (subst (λ b. (length b ≡ 16) ⊎ (length b ≡ 32)) same h, inl no_algorithm)
check_algorithm-IsGoodKey (c ∷ algorithm) key k h e =
    elim (Bool-cases (length key == expected_length (c ∷ algorithm))) [
      | inr d ↦ absurd (cc (rw d at e))
      | inl d ↦
          let given : cipher_with key ≡ cipher_with k = rw d at e in
          let same : key ≡ k = cc given in
          subst (IsGoodKey (c ∷ algorithm)) same (
            h,
            elim (Bool-cases (eq_bytes (c ∷ algorithm) aes_256_gcm)) [
              | inr a ↦ inl a
              | inl a ↦ inr ((==_iff (length key) 32).0 (rw a at d))
            ],
          )
    ]

check_key-IsGoodKey :
    (algorithm k : Bytes) (key : Option Bytes)
    → check_key algorithm key ≡ cipher_with k
    → IsGoodKey algorithm k
check_key-IsGoodKey algorithm k none e = absurd (cc e)
check_key-IsGoodKey algorithm k (some key) e = elim (Bool-cases (length key == 16)) [
  | inl a ↦
      check_algorithm-IsGoodKey algorithm key k (inl ((==_iff (length key) 16).0 a)) (rw a at e)
  | inr a ↦ elim (Bool-cases (length key == 32)) [
    | inl b ↦
        check_algorithm-IsGoodKey algorithm key k (inr ((==_iff (length key) 32).0 b))
          (rw (a, b) at e)
    | inr b ↦ absurd (cc (rw (a, b) at e))
  ]
]

chosen-IsGoodKey :
    (decode64 : Bytes → Option Bytes) (key text algorithm k : Bytes)
    → choose_key decode64 key text algorithm ≡ cipher_with k
    → IsGoodKey algorithm k
chosen-IsGoodKey decode64 [] [] algorithm k e = absurd (cc e)
chosen-IsGoodKey decode64 [] (c ∷ text) algorithm k e =
    check_key-IsGoodKey algorithm k (decode64 (c ∷ text)) e
chosen-IsGoodKey decode64 (b ∷ key) [] algorithm k e =
    check_key-IsGoodKey algorithm k (some (b ∷ key)) e
chosen-IsGoodKey decode64 (b ∷ key) (c ∷ text) algorithm k e = absurd (cc e)

-- A cipher that is built has a key of 16 or 32 bytes, and of 32 when AES-256 was asked for: nobody
-- who asks for AES-256 gets AES-128.
pub new_cipher-IsGoodKey :
    (decode64 : Bytes → Option Bytes) (params : CipherParams) (k : Bytes)
    → new_cipher decode64 params ≡ cipher_with k
    → IsGoodKey params.algorithm k
unfolding new_cipher
new_cipher-IsGoodKey decode64 params k e =
    chosen-IsGoodKey decode64 params.key params.key_base64 params.algorithm k e
