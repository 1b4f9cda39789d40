-- ===== src/Network/Acl.antt =====
-- src/network/acl.rs: the parser of "a.b.c.d", "a.b.c.d/bits" and "a.b.c.d/e.f.g.h", and the match
-- of an address. A text is the list of its bytes. An address is little-endian, a in the low byte.
use yuri.Base.{
  ℕ, ◌+◌, ◌-◌, ◌*◌, ◌^◌, Bool, true, false, ◌&&◌, ◌||◌, Option, none, some, List, [], ◌∷◌,
  if◌then◌else◌, ltb, leb, ◌==◌, bit_and, bit_or, ◌<<<◌, u32, swap_bytes32,
}
use Prim.Native.String.{String}
use Prim.Native.Char.{code}

pub record AccessControl : Type 0 where
  pub ip : ℕ
  pub mask : ℕ

-- Never read by the code of this file.
pub data AclOrder : Type 0 where
  deny_allow allow_deny mutual_failure : AclOrder

-- The bytes of an ASCII text.
abbrev pub codes : String → List ℕ
codes String.[] = []
codes (String.◌∷◌ c s) = code c ∷ codes s

abbrev pub bytes_eq : List ℕ → List ℕ → Bool
bytes_eq [] [] = true
bytes_eq [] (y ∷ ys) = false
bytes_eq (x ∷ xs) [] = false
bytes_eq (x ∷ xs) (y ∷ ys) = x == y && bytes_eq xs ys

infixl 5 ◌>>=◌
abbrev pub ◌>>=◌ {ℓ κ} : {A : Type ℓ} {B : Type κ} → Option A → (A → Option B) → Option B
none >>= f = none
some a >>= f = f a

is_digit : ℕ → Bool
is_digit c = leb b'0' c && leb c b'9'

-- The digits of `str::parse::<u32>`: each step is a checked multiplication and a checked addition.
unfoldable pub parse_digits : ℕ → List ℕ → Option ℕ
unfolding is_digit
parse_digits acc [] = some acc
parse_digits acc (c ∷ cs) =
    let rest = parse_digits (acc * 10 + (c - b'0')) cs in
    if is_digit c && ltb (acc * 10 + (c - b'0')) (2 ^ 32) then rest else none

-- `str::parse::<u32>`: an optional `+`, then at least one digit, below 2 ^ 32.
unfoldable pub parse_u32 : List ℕ → Option ℕ
unfolding parse_digits
parse_u32 [] = none
parse_u32 (c ∷ []) = if c == b'+' then none else parse_digits 0 (c ∷ [])
parse_u32 (c ∷ d ∷ cs) = if c == b'+' then parse_digits 0 (d ∷ cs) else parse_digits 0 (c ∷ d ∷ cs)

-- `split_once(c)`: the text before the first `c` and the text behind it.
unfoldable pub split_once : ℕ → List ℕ → Option (List ℕ × List ℕ)
split_once c [] = none
split_once c (x ∷ xs) =
    if x == c then some ([], xs) else split_once c xs >>= λ r. some (x ∷ r.0, r.1)

-- `splitn(4, '.')` and the four calls of `next()?`: none if there are fewer than four parts.
unfoldable pub split_four : List ℕ → Option (List ℕ × List ℕ × List ℕ × List ℕ)
unfolding split_once
split_four s = do
  (a, s1) ← split_once b'.' s
  (b, s2) ← split_once b'.' s1
  (c, d) ← split_once b'.' s2
  some (a, b, c, d)

unfoldable pub contains : ℕ → List ℕ → Bool
contains c [] = false
contains c (x ∷ xs) = x == c || contains c xs

unfoldable pub parse_ipv4 : List ℕ → Option ℕ
unfolding split_four parse_u32
parse_ipv4 s = do
  (pa, pb, pc, pd) ← split_four s
  a ← parse_u32 pa
  b ← parse_u32 pb
  c ← parse_u32 pc
  d ← parse_u32 pd
  if ltb 255 a || ltb 255 b || ltb 255 c || ltb 255 d
      then none
      else some (bit_or (bit_or (bit_or a (u32 (b <<< 8))) (u32 (c <<< 16))) (u32 (d <<< 24)))

-- For `bits` up to 32.
unfoldable pub prefix_to_mask : ℕ → ℕ
prefix_to_mask bits =
    if bits == 0
    then 0
    else swap_bytes32 (if bits == 32 then 0xFFFF_FFFF else u32 (0xFFFF_FFFF <<< (32 - bits)))

unfoldable pub parse_ipmask : List ℕ → Option AccessControl
unfolding parse_ipv4 split_once contains prefix_to_mask parse_u32
parse_ipmask s =
    if bytes_eq s (codes "all")
    then some (record { ip = 0; mask = 0 })
    else elim (split_once b'/' s) [
      | some (addr_part, mask_part) ↦ do
        ip ← parse_ipv4 addr_part
        if contains b'.' mask_part
            then (do mask ← parse_ipv4 mask_part; some (record { ip = ip; mask = mask }))
            else (do
              bits ← parse_u32 mask_part
              if ltb 32 bits then none else some (record { ip = ip; mask = prefix_to_mask bits }))
      | none ↦ do ip ← parse_ipv4 s; some (record { ip = ip; mask = 0xFFFF_FFFF })
    ]

unfoldable pub matches : AccessControl → ℕ → Bool
matches acl ip = acl.mask == 0 || bit_and ip acl.mask == bit_and acl.ip acl.mask
