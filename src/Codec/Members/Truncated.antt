-- ===== src/Codec/Members/Truncated.antt =====
-- Reading batch members from a buffer that may be too short.
use realtime_go.Common.{ℕ, zero, suc, ◌+◌, ◌/◌, ◌≤◌, ◌∷◌, ◌++◌, Bytes, length, length-append, arith}
use realtime_go.Codec.Stable.{Stable, Stable-pure, Stable-bind, stable_rules}
use realtime_go.Codec.Members.{read_wire_member, read_wire_members}

Stable-wire_member : Stable read_wire_member
unfolding read_wire_member
Stable-wire_member = search stable_rules depth 12

pub Stable-wire_members : (count : ℕ) → Stable (read_wire_members count)
unfolding read_wire_members
Stable-wire_members zero = search stable_rules
Stable-wire_members (suc count) =
    Stable-bind _ _ Stable-wire_member
      (λ m. Stable-bind _ _ (Stable-wire_members count) (λ ms. Stable-pure (m ∷ ms)))

-- The bounds on the counts grow with the buffer.
pub third_grows : (buf more : Bytes) → length buf / 3 ≤ length (buf ++ more) / 3
third_grows buf more = omega (arith, length-append buf more)

pub ninth_grows : (buf more : Bytes) → length buf / 9 + 1 ≤ length (buf ++ more) / 9 + 1
ninth_grows buf more = omega (arith, length-append buf more)
