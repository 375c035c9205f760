-- ===== src/Auth/Tests.antt =====
-- Keys and lifetimes at concrete inputs.
use realtime_go.Common.{◌+◌, ◌*◌, ◌≤◌, ◌<◌, ◌≡◌, ◌↔◌, ℕ, [], ◌∷◌, Bytes, arith}
use realtime_go.Common.Int.{pos}
use realtime_go.Auth.{key_parts, split_api_key, lifetime}
use realtime_go.Auth.Keys.{IsKey, split_api_key-IsKey, lifetime-bounds}

-- "a.b:c"
abbrev key : Bytes
key = 97 ∷ 46 ∷ 98 ∷ 58 ∷ 99 ∷ []

split_api_key-IsKey_example :
    (split_api_key key ≡ key_parts (97 ∷ 46 ∷ 98 ∷ []) (99 ∷ []))
    ↔ IsKey key (97 ∷ 46 ∷ 98 ∷ []) (99 ∷ [])
split_api_key-IsKey_example = split_api_key-IsKey key (97 ∷ 46 ∷ 98 ∷ []) (99 ∷ [])

lifetime-bounds_example :
    (s : ℕ) × (lifetime 1500000000 ≡ pos s)
    × (1500000000 ≤ s * 1000000000)
    × (s * 1000000000 < 1500000000 + 1000000000)
lifetime-bounds_example = lifetime-bounds 1500000000 (omega arith) (omega arith)
