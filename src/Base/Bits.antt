-- ===== src/Base/Bits.antt =====
-- Exclusive or at variables: its lowest digit, and the laws that a cipher needs.
use Prim.Native.Nat.{
  ℕ, zero, suc, ◌+◌, ◌*◌, ◌/◌, ◌%◌, ◌^◌, ◌≤◌, ◌<◌, max, bit_or, bit_xor, digits, differ,
  bit_or-bitwise, bit_xor-bitwise,
}
use mathlib.Core.Path.{◌≡◌, refl, ap, ◌∙◌}
use native.Mathlib.Nat.{pow-suc}
use native.Mathlib.Omega.{arith}

abbrev xor_digits : ℕ → ℕ → ℕ → ℕ
xor_digits n a b = digits (λ b. b) differ n a b

xor_digits_fuel : (n m a b : ℕ) → a ≤ n → a ≤ m → xor_digits n a b ≡ xor_digits m a b
xor_digits_fuel zero zero a b p q = refl
xor_digits_fuel zero (suc m) zero b p q = refl
xor_digits_fuel zero (suc m) (suc a) b p q = absurd (omega arith)
xor_digits_fuel (suc n) zero zero b p q = refl
xor_digits_fuel (suc n) zero (suc a) b p q = absurd (omega arith)
xor_digits_fuel (suc n) (suc m) zero b p q = refl
xor_digits_fuel (suc n) (suc m) (suc a) b p q =
    omega (arith, xor_digits_fuel n m (suc a / 2) (b / 2) (omega arith) (omega arith))

zero-bit_xor : (b : ℕ) → bit_xor 0 b ≡ b
zero-bit_xor b = bit_xor-bitwise 0 b

pub bit_xor_step : (a b : ℕ) → bit_xor a b ≡ bit_xor (a / 2) (b / 2) * 2 + differ (a % 2) (b % 2)
bit_xor_step zero b = omega (arith, zero-bit_xor b, zero-bit_xor (b / 2))
bit_xor_step (suc a) b = omega (
  arith,
  bit_xor-bitwise (suc a) b,
  bit_xor-bitwise (suc a / 2) (b / 2),
  xor_digits_fuel a (suc a / 2) (suc a / 2) (b / 2) (omega arith) (omega arith),
)

differ-lt : (x y : ℕ) → x < 2 → y < 2 → differ x y < 2
differ-lt zero y p q = q
differ-lt (suc zero) zero p q = p
differ-lt (suc zero) (suc zero) p q = omega arith
differ-lt (suc zero) (suc (suc y)) p q = absurd (omega arith)
differ-lt (suc (suc x)) y p q = absurd (omega arith)

differ_cancel : (x y : ℕ) → x < 2 → y < 2 → differ (differ x y) y ≡ x
differ_cancel zero zero p q = refl
differ_cancel zero (suc zero) p q = refl
differ_cancel zero (suc (suc y)) p q = absurd (omega arith)
differ_cancel (suc zero) zero p q = refl
differ_cancel (suc zero) (suc zero) p q = refl
differ_cancel (suc zero) (suc (suc y)) p q = absurd (omega arith)
differ_cancel (suc (suc x)) y p q = absurd (omega arith)

differ_swap : (x y z : ℕ) → x < 2 → y < 2 → z < 2 → differ (differ x y) z ≡ differ (differ x z) y
differ_swap zero zero zero p q r = refl
differ_swap zero zero (suc zero) p q r = refl
differ_swap zero (suc zero) zero p q r = refl
differ_swap zero (suc zero) (suc zero) p q r = refl
differ_swap (suc zero) zero zero p q r = refl
differ_swap (suc zero) zero (suc zero) p q r = refl
differ_swap (suc zero) (suc zero) zero p q r = refl
differ_swap (suc zero) (suc zero) (suc zero) p q r = refl
differ_swap (suc (suc x)) y z p q r = absurd (omega arith)
differ_swap zero (suc (suc y)) z p q r = absurd (omega arith)
differ_swap (suc zero) (suc (suc y)) z p q r = absurd (omega arith)
differ_swap zero zero (suc (suc z)) p q r = absurd (omega arith)
differ_swap zero (suc zero) (suc (suc z)) p q r = absurd (omega arith)
differ_swap (suc zero) zero (suc (suc z)) p q r = absurd (omega arith)
differ_swap (suc zero) (suc zero) (suc (suc z)) p q r = absurd (omega arith)

-- The two halves of an exclusive or.
bit_xor_halves :
    (a b : ℕ)
    → (bit_xor a b / 2 ≡ bit_xor (a / 2) (b / 2)) × (bit_xor a b % 2 ≡ differ (a % 2) (b % 2))
bit_xor_halves a b =
    let low = differ-lt (a % 2) (b % 2) (omega arith) (omega arith) in
    (omega (arith, bit_xor_step a b, low), omega (arith, bit_xor_step a b, low))

bit_xor_cancel_below : (n a k : ℕ) → a ≤ n → k ≤ n → bit_xor (bit_xor a k) k ≡ a
bit_xor_cancel_below zero zero zero p q = refl
bit_xor_cancel_below zero (suc a) k p q = absurd (omega arith)
bit_xor_cancel_below zero zero (suc k) p q = absurd (omega arith)
bit_xor_cancel_below (suc n) a k p q =
    let h = bit_xor_halves a k in
    bit_xor_step (bit_xor a k) k
    ∙ rw (h.0, h.1)
        (omega (
          arith,
          bit_xor_cancel_below n (a / 2) (k / 2) (omega arith) (omega arith),
          differ_cancel (a % 2) (k % 2) (omega arith) (omega arith),
        ))

-- A key applied twice is gone.
pub bit_xor_cancel : (a k : ℕ) → bit_xor (bit_xor a k) k ≡ a
bit_xor_cancel a k = bit_xor_cancel_below (a + k) a k (omega arith) (omega arith)

bit_xor_swap_below :
    (n a b c : ℕ) → a ≤ n → b ≤ n → c ≤ n → bit_xor (bit_xor a b) c ≡ bit_xor (bit_xor a c) b
bit_xor_swap_below zero zero zero zero p q r = refl
bit_xor_swap_below zero (suc a) b c p q r = absurd (omega arith)
bit_xor_swap_below zero zero (suc b) c p q r = absurd (omega arith)
bit_xor_swap_below zero zero zero (suc c) p q r = absurd (omega arith)
bit_xor_swap_below (suc n) a b c p q r =
    let hb = bit_xor_halves a b in
    let hc = bit_xor_halves a c in
    rw (bit_xor_step (bit_xor a b) c, bit_xor_step (bit_xor a c) b, hb.0, hb.1, hc.0, hc.1)
      (omega (
        arith,
        bit_xor_swap_below n (a / 2) (b / 2) (c / 2) (omega arith) (omega arith) (omega arith),
        differ_swap (a % 2) (b % 2) (c % 2) (omega arith) (omega arith) (omega arith),
      ))

-- Keys may be applied in either order.
pub bit_xor_swap : (a b c : ℕ) → bit_xor (bit_xor a b) c ≡ bit_xor (bit_xor a c) b
bit_xor_swap a b c = bit_xor_swap_below (a + b + c) a b c (omega arith) (omega arith) (omega arith)

abbrev or_digits : ℕ → ℕ → ℕ → ℕ
or_digits n a b = digits (λ b. b) max n a b

or_digits_fuel : (n m a b : ℕ) → a ≤ n → a ≤ m → or_digits n a b ≡ or_digits m a b
or_digits_fuel zero zero a b p q = refl
or_digits_fuel zero (suc m) zero b p q = refl
or_digits_fuel zero (suc m) (suc a) b p q = absurd (omega arith)
or_digits_fuel (suc n) zero zero b p q = refl
or_digits_fuel (suc n) zero (suc a) b p q = absurd (omega arith)
or_digits_fuel (suc n) (suc m) zero b p q = refl
or_digits_fuel (suc n) (suc m) (suc a) b p q =
    omega (arith, or_digits_fuel n m (suc a / 2) (b / 2) (omega arith) (omega arith))

zero-bit_or : (b : ℕ) → bit_or 0 b ≡ b
zero-bit_or b = bit_or-bitwise 0 b

bit_or_digit : (a b : ℕ) → bit_or a b ≡ bit_or (a / 2) (b / 2) * 2 + max (a % 2) (b % 2)
bit_or_digit zero b = omega (arith, zero-bit_or b, zero-bit_or (b / 2))
bit_or_digit (suc a) b = omega (
  arith,
  bit_or-bitwise (suc a) b,
  bit_or-bitwise (suc a / 2) (b / 2),
  or_digits_fuel a (suc a / 2) (suc a / 2) (b / 2) (omega arith) (omega arith),
)

bit_or-zero_below : (n a : ℕ) → a ≤ n → bit_or a 0 ≡ a
bit_or-zero_below n zero h = refl
bit_or-zero_below zero (suc a) h = absurd (omega arith)
bit_or-zero_below (suc n) (suc a) h =
    omega (arith, bit_or_digit (suc a) 0, bit_or-zero_below n (suc a / 2) (omega arith))

-- A field put above `k` bits is added.
bit_or_above : (k q r : ℕ) → r < 2 ^ k → bit_or (q * 2 ^ k) r ≡ q * 2 ^ k + r
bit_or_above zero q r h = ground (arith, bit_or-zero_below q q)
bit_or_above (suc k) q r h =
    let doubled : q * 2 ^ suc k ≡ 2 * (q * 2 ^ k) =
      omega (arith, ap (λ (t : ℕ). q * t) (pow-suc 2 k)) in
    let half : r / 2 < 2 ^ k = omega (arith, pow-suc 2 k) in
    rw doubled (
      omega (
        arith,
        bit_or_digit (2 * (q * 2 ^ k)) r,
        bit_or_above k q (r / 2) half,
        halved (q * 2 ^ k) (r / 2),
      ))
  where
    halved : (m s : ℕ) → bit_or (2 * m / 2) s ≡ bit_or m s
    halved m s = ap (λ (t : ℕ). bit_or t s) (omega arith)

-- Two bytes, the high one first, as a number of 16 bits.
pub bit_or_bytes : (hi lo : ℕ) → lo < 256 → bit_or (hi * 2 ^ 8) lo ≡ hi * 256 + lo
bit_or_bytes hi lo h = bit_or_above 8 hi lo h

max_bits_comm : (x y : ℕ) → max x y ≡ max y x
max_bits_comm x y = omega arith

bit_or_comm_below : (n a b : ℕ) → a ≤ n → b ≤ n → bit_or a b ≡ bit_or b a
bit_or_comm_below zero zero zero p q = refl
bit_or_comm_below zero (suc a) b p q = absurd (omega arith)
bit_or_comm_below zero zero (suc b) p q = absurd (omega arith)
bit_or_comm_below (suc n) a b p q = omega (
  arith,
  bit_or_digit a b,
  bit_or_digit b a,
  bit_or_comm_below n (a / 2) (b / 2) (omega arith) (omega arith),
  max_bits_comm (a % 2) (b % 2),
)

-- A field below a field that is put above `k` bits is added.
pub bit_or_below : (k q r : ℕ) → r < 2 ^ k → bit_or r (q * 2 ^ k) ≡ r + q * 2 ^ k
bit_or_below k q r h =
    bit_or_comm_below (r + q * 2 ^ k) r (q * 2 ^ k) (omega arith) (omega arith)
    ∙ omega (arith, bit_or_above k q r h)
