-- ===== src/Crypto/Tests.antt =====
-- The cipher at concrete inputs, with a base64, JSON and AES-GCM that leave bytes alone.
use realtime_go.Common.{◌≡◌, refl, Option, some, [], ◌∷◌, ◌++◌, Bytes}
use realtime_go.Crypto.{new_cipher, EncryptResult, plaintext, encrypt, decrypt}
use realtime_go.Crypto.Envelope.{decrypt-encrypt, IsGoodKey, new_cipher-IsGoodKey}

abbrev sixteen : Bytes
sixteen = 1 ∷ 2 ∷ 3 ∷ 4 ∷ 5 ∷ 6 ∷ 7 ∷ 8 ∷ 1 ∷ 2 ∷ 3 ∷ 4 ∷ 5 ∷ 6 ∷ 7 ∷ 8 ∷ []

abbrev twelve : Bytes
twelve = 9 ∷ 2 ∷ 3 ∷ 4 ∷ 5 ∷ 6 ∷ 7 ∷ 8 ∷ 1 ∷ 2 ∷ 3 ∷ 4 ∷ []

abbrev plain : Bytes → Bytes
plain b = b

abbrev plain_seal : Bytes → Bytes → Bytes → Bytes
plain_seal key iv value = value

abbrev plain_open : Bytes → Bytes → Bytes → Option Bytes
plain_open key iv value = some value

-- The JSON text of a string, without its quotes.
abbrev sent : EncryptResult
sent = encrypt plain some some plain_seal plain_open sixteen twelve (49 ∷ [])

decrypt-encrypt_example :
    decrypt plain some some plain_seal plain_open sixteen sent.encoding (twelve ++ 49 ∷ [])
    ≡ plaintext (49 ∷ [])
unfolding encrypt
decrypt-encrypt_example =
    decrypt-encrypt plain some some plain_seal plain_open sixteen twelve (49 ∷ [])
      (twelve ++ 49 ∷ []) (λ b. refl) refl refl refl

new_cipher-IsGoodKey_example : IsGoodKey [] sixteen
unfolding new_cipher
new_cipher-IsGoodKey_example =
    new_cipher-IsGoodKey some (record { key = sixteen; key_base64 = []; algorithm = [] }) sixteen
      refl
