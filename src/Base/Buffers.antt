-- ===== src/Base/Buffers.antt =====
-- Byte buffers: slices and copies, which panic out of range; the lemmas on them.
use Prim.Native.Nat.{ℕ, ◌+◌, ◌*◌, ◌-◌, ◌/◌, ◌%◌, ◌^◌, ◌≤◌, ◌<◌}
use mathlib.Core.Path.{◌≡◌, ap, ◌∙◌}
use mathlib.Core.Bool.{◌&&◌}
use mathlib.Core.List.{List, [], ◌∷◌, ◌++◌}
use mathlib.Core.Option.{Option, none, some}
use native.Mathlib.Omega.{arith}
use yuri.Base.Tests.{if◌then◌else◌, leb, ltb}
use yuri.Base.Lists.{
  length, take, drop, set, length-append, length-take, length-drop, take-append_self, set-append_ge,
}

-- `xs[i..i + bytes.len()].copy_from_slice(bytes)`.
unfoldable pub overwrite : List ℕ → ℕ → List ℕ → List ℕ
overwrite xs i bytes = take i xs ++ bytes ++ drop (i + length bytes) xs

pub length-overwrite :
    (xs : List ℕ) (i : ℕ) (bytes : List ℕ)
    → i + length bytes ≤ length xs
    → length (overwrite xs i bytes) ≡ length xs
unfolding overwrite
length-overwrite xs i bytes h = omega (
  arith,
  length-append (take i xs) (bytes ++ drop (i + length bytes) xs),
  length-append (take i xs ++ bytes) (drop (i + length bytes) xs),
  length-append (take i xs) bytes,
  length-append bytes (drop (i + length bytes) xs),
  length-take i xs,
  length-drop (i + length bytes) xs,
)

-- Bytes stored behind a prefix are read behind it.
pub take-overwrite :
    (w : List ℕ) (k : ℕ) (src : List ℕ)
    → k + length src ≤ length w
    → take (k + length src) (overwrite w k src) ≡ take k w ++ src
unfolding overwrite
take-overwrite w k src h =
    take-append_self (k + length src) (take k w ++ src) (drop (k + length src) w)
      (omega (arith, length-append (take k w) src, length-take k w))

-- `none` is a panic: an index out of range.
infixl 5 ◌>>=◌
abbrev pub ◌>>=◌ {ℓ κ} : {A : Type ℓ} {B : Type κ} → Option A → (A → Option B) → Option B
none >>= f = none
some a >>= f = f a

-- A write at an index.
abbrev pub store : List ℕ → ℕ → ℕ → Option (List ℕ)
store xs i v = if ltb i (length xs) then some (set xs i v) else none

-- `xs[lo..hi]`, or a panic.
unfoldable pub slice : List ℕ → ℕ → ℕ → Option (List ℕ)
slice xs lo hi =
    if leb lo hi && leb hi (length xs) then some (take (hi - lo) (drop lo xs)) else none

-- A copy into `[i, i + bytes.len())`, or a panic.
unfoldable pub copy_at : List ℕ → ℕ → List ℕ → Option (List ℕ)
copy_at xs i bytes =
    if leb (i + length bytes) (length xs) then some (overwrite xs i bytes) else none

-- The bytes of a `u16` and of a `u32`, the low byte or the high byte first.
abbrev pub le16 : ℕ → List ℕ
le16 n = n % 2 ^ 8 ∷ n / 2 ^ 8 % 2 ^ 8 ∷ []

abbrev pub be16 : ℕ → List ℕ
be16 n = n / 2 ^ 8 % 2 ^ 8 ∷ n % 2 ^ 8 ∷ []

abbrev pub le32 : ℕ → List ℕ
le32 n = n % 2 ^ 8 ∷ n / 2 ^ 8 % 2 ^ 8 ∷ n / 2 ^ 16 % 2 ^ 8 ∷ n / 2 ^ 24 % 2 ^ 8 ∷ []

abbrev pub be32 : ℕ → List ℕ
be32 n = n / 2 ^ 24 % 2 ^ 8 ∷ n / 2 ^ 16 % 2 ^ 8 ∷ n / 2 ^ 8 % 2 ^ 8 ∷ n % 2 ^ 8 ∷ []

pub store_lt : (xs : List ℕ) (i v : ℕ) → i < length xs → store xs i v ≡ some (set xs i v)
store_lt xs i v h = ground (arith, h)

-- A write behind a prefix.
pub store_behind :
    (xs ys : List ℕ) (n i v : ℕ)
    → n ≡ length xs + i
    → i < length ys
    → store (xs ++ ys) n v ≡ some (xs ++ set ys i v)
store_behind xs ys n i v e h = rw e (
    store_lt (xs ++ ys) (length xs + i) v (omega (arith, length-append xs ys))
    ∙ ap some (set-append_ge xs ys i v))

-- The bytes of a `u32` are read back.
pub le32_value :
    (n : ℕ)
    → n < 2 ^ 32
    → n % 2 ^ 8
        + n / 2 ^ 8 % 2 ^ 8 * 2 ^ 8
        + n / 2 ^ 16 % 2 ^ 8 * 2 ^ 16
        + n / 2 ^ 24 % 2 ^ 8 * 2 ^ 24
      ≡ n
le32_value n h = omega (arith, h)
