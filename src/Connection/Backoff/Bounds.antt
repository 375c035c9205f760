-- ===== src/Connection/Backoff/Bounds.antt =====
-- connection.go: the bounds of the reconnect delay, and the delay without machine integers.
use Prim.Native.Nat.{◌∣◌}
use native.Mathlib.Nat.{
  pow-suc, dvd_refl, dvd-mul_left, dvd-mul_right_of_dvd, dvd-mod_iff, le_of_dvd, mod-eq-zero_of_dvd,
  dvd-mul_left_of_dvd, mul-le-mul_left, le-mul_of_pos_right, mul_comm, one-le-pow, pow-le-pow_right,
  mod-eq_of_lt,
}
use realtime_go.Common.{
  ℕ, zero, suc, ◌+◌, ◌*◌, ◌%◌, ◌^◌, ◌≤◌, ◌<◌, ◌≡◌, ◌⊎◌, inl, inr, refl, sym, subst, true, arith,
  ltb, leb, lt→ltb, ltb→lt, leb→le, if◌then◌else◌, Bool-cases,
}
use realtime_go.Common.Int.{ℤ, pos, negsuc, int_of_u64}
use realtime_go.Connection.Backoff.{
  default_max_reconnect_delay, positive_or, shift_left, clamp_delay, reconnect_delay,
}

positive_or-pos : (option : ℤ) (default : ℕ) → 0 < default → 0 < positive_or option default
unfolding positive_or
positive_or-pos (pos n) default h = ground arith
positive_or-pos (negsuc n) default h = h

clamp_delay_between :
    (max : ℕ) (delay : ℤ) → 0 < max → (0 < clamp_delay max delay) × (clamp_delay max delay ≤ max)
unfolding clamp_delay
clamp_delay_between max (pos delay) h = (ground arith, ground arith)
clamp_delay_between max (negsuc delay) h = (h, omega arith)

-- Whatever the options and the attempt, the delay is positive and at most the maximum: overflow of
-- the shift never gives a busy loop or a longer wait.
pub reconnect_delay-bounds :
    (initial max : ℤ) (attempt : ℕ)
    → (0 < reconnect_delay initial max attempt)
      × (reconnect_delay initial max attempt ≤ positive_or max default_max_reconnect_delay)
unfolding reconnect_delay
reconnect_delay-bounds initial max attempt =
    clamp_delay_between _ _ (positive_or-pos max default_max_reconnect_delay (omega arith))

power-∣ : (n m : ℕ) → n ≤ m → 2 ^ n ∣ 2 ^ m
power-∣ n zero h =
    let is_zero : 0 ≡ n = omega (arith, h) in subst (λ k. 2 ^ k ∣ 2 ^ 0) is_zero (dvd_refl (2 ^ 0))
power-∣ n (suc m) h = elim (Bool-cases (leb n m)) [
  | inl e ↦
      subst (λ x. 2 ^ n ∣ x) (sym (pow-suc 2 m))
        (dvd-mul_right_of_dvd (2 ^ n) (power-∣ n m (ground (arith, e))) 2)
  | inr e ↦
      let is_last : suc m ≡ n = ground (arith, e, h) in
      subst (λ k. 2 ^ k ∣ 2 ^ suc m) is_last (dvd_refl (2 ^ suc m))
]

-- The bits that a shift keeps are 0 or a multiple of the shift's power.
shifted_out : (initial n : ℕ) → (initial * 2 ^ n % 2 ^ 64 ≡ 0) ⊎ (2 ^ n ≤ initial * 2 ^ n % 2 ^ 64)
shifted_out initial n = elim (Bool-cases (ltb n 64)) [
  | inl e ↦
      let divides =
        (dvd-mod_iff (2 ^ n) {m = initial * 2 ^ n} {n = 2 ^ 64}
            (power-∣ n 64 (ground (arith, e)))).1
          (dvd-mul_left (2 ^ n) initial) in
      elim (Bool-cases (ltb 0 (initial * 2 ^ n % 2 ^ 64))) [
        | inl h ↦ inr (le_of_dvd (ground (arith, h)) divides)
        | inr h ↦ inl (ground (arith, h))
      ]
  | inr e ↦ inl (
      mod-eq-zero_of_dvd (2 ^ 64)
        (dvd-mul_left_of_dvd (2 ^ 64) (power-∣ 64 n (ground (arith, e))) initial))
]

-- The delay in whole numbers.
unfoldable pub exact_delay : ℕ → ℕ → ℕ → ℕ
exact_delay initial max attempt =
    if ltb max (initial * 2 ^ attempt) then max else initial * 2 ^ attempt

clamp_kept :
    (max x : ℕ)
    → 0 < x
    → max < 2 ^ 63
    → clamp_delay max (int_of_u64 x) ≡ (if ltb max x then max else x)
unfolding clamp_delay int_of_u64
clamp_kept max x h m = elim (Bool-cases (ltb x (2 ^ 63))) [
  | inl e ↦ rw e (ground arith)
  | inr e ↦ rw e (ground arith)
]

clamp_lost : (max x y : ℕ) → (y ≡ 0) ⊎ (x ≤ y) → max < x → clamp_delay max (int_of_u64 y) ≡ max
unfolding clamp_delay int_of_u64
clamp_lost max x y h m = elim (Bool-cases (ltb y (2 ^ 63))) [
  | inl e ↦ rw e (ground (arith, h, m))
  | inr e ↦ rw e refl
]

exact_delay-small :
    (initial max attempt : ℕ)
    → 0 < initial
    → max < 2 ^ 63
    → initial * 2 ^ attempt < 2 ^ 64
    → clamp_delay max (shift_left initial attempt) ≡ exact_delay initial max attempt
unfolding shift_left exact_delay
exact_delay-small initial max attempt i m h =
    let grows : initial ≤ initial * 2 ^ attempt =
      le-mul_of_pos_right initial (one-le-pow attempt 2 (omega arith)) in
    rw (mod-eq_of_lt h) (clamp_kept max (initial * 2 ^ attempt) (omega (arith, grows, i)) m)

-- An attempt whose shift overflows has a power above the maximum.
power_above :
    (k initial max attempt : ℕ)
    → max < 2 ^ (k + 1)
    → initial * 2 ^ k < 2 ^ 64
    → 2 ^ 64 ≤ initial * 2 ^ attempt
    → max < 2 ^ attempt
power_above k initial max attempt mk ik h = elim (Bool-cases (leb (k + 1) attempt)) [
  | inl e ↦
      let grows : 2 ^ (k + 1) ≤ 2 ^ attempt =
        pow-le-pow_right {n = 2} (omega arith) (leb→le _ _ e) in
      omega (arith, mk, grows)
  | inr e ↦
      let fewer : attempt ≤ k = ground (arith, e) in
      let grows : initial * 2 ^ attempt ≤ initial * 2 ^ k =
        mul-le-mul_left initial (pow-le-pow_right {n = 2} (omega arith) fewer) in
      absurd (omega (arith, grows, ik, h))
]

exact_delay-large :
    (initial max attempt : ℕ)
    → 0 < initial
    → max < 2 ^ attempt
    → clamp_delay max (shift_left initial attempt) ≡ exact_delay initial max attempt
unfolding shift_left exact_delay
exact_delay-large initial max attempt i m =
    let grows : 2 ^ attempt ≤ initial * 2 ^ attempt =
      subst (λ x. 2 ^ attempt ≤ x) (mul_comm (2 ^ attempt) initial)
        (le-mul_of_pos_right (2 ^ attempt) i) in
    let over : ltb max (initial * 2 ^ attempt) ≡ true = lt→ltb _ _ (omega (arith, grows, m)) in
    rw over (clamp_lost max (2 ^ attempt) _ (shifted_out initial attempt) m)

-- With no 64-bit integers: the delay is the smaller of the maximum and the initial delay doubled at
-- each attempt. For positive options (an int64 maximum) whose powers of two are close enough: for
-- some `k`, the maximum is below 2^(k + 1) and the initial delay times 2^k is below 2^64, as for the
-- defaults with `k = 34`. The shift may overflow all the same.
pub reconnect_delay-exact_delay :
    (k initial max attempt : ℕ)
    → 0 < initial
    → 0 < max
    → max < 2 ^ 63
    → max < 2 ^ (k + 1)
    → initial * 2 ^ k < 2 ^ 64
    → reconnect_delay (pos initial) (pos max) attempt ≡ exact_delay initial max attempt
unfolding reconnect_delay positive_or
reconnect_delay-exact_delay k initial max attempt i m m63 mk ik =
    let initial_given : ltb 0 initial ≡ true = lt→ltb 0 initial i in
    let max_given : ltb 0 max ≡ true = lt→ltb 0 max m in
    rw (initial_given, max_given)
      (elim (Bool-cases (ltb (initial * 2 ^ attempt) (2 ^ 64))) [
        | inl e ↦ exact_delay-small initial max attempt i m63 (ltb→lt _ _ e)
        | inr e ↦
            exact_delay-large initial max attempt i
              (power_above k initial max attempt mk ik (ground (arith, e)))
      ])
