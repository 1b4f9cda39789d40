-- ===== src/Network/Address.antt =====
-- The texts that the access list parser accepts: what is printed is read back.
use yuri.Base.{
  ℕ, ◌+◌, ◌*◌, ◌/◌, ◌%◌, ◌^◌, ◌<◌, ◌≡◌, refl, sym, ap, ◌∙◌, Bool, true, false, zero, suc, ◌-◌, ◌&&◌,
  ◌==◌, ==_iff, min, Bool-cases, inl, inr, ◌||◌, none, some, List, [], ◌∷◌, ◌++◌, arith,
  if◌then◌else◌, ltb, bit_or, u32,
}
use mathlib.Core.List.{append_assoc}
use yuri.Base.Bits.{bit_or_below}
use yuri.Network.Acl.{
  parse_ipmask, parse_ipv4, parse_u32, split_once, split_four, contains, prefix_to_mask, bytes_eq,
  codes,
}

-- A number below 1000 in decimal, without leading zeros.
unfoldable pub show : ℕ → List ℕ
show n =
    if ltb n 10
    then (n + 48) ∷ []
    else (if ltb n 100
        then (n / 10 + 48) ∷ (n % 10 + 48) ∷ []
        else (n / 100 + 48) ∷ (n / 10 % 10 + 48) ∷ (n % 10 + 48) ∷ [])

-- "a.b.c.d".
unfoldable pub show_ipv4 : ℕ → ℕ → ℕ → ℕ → List ℕ
show_ipv4 a b c d = show a ++ b'.' ∷ (show b ++ b'.' ∷ (show c ++ b'.' ∷ show d))

parse_u32-show : (n : ℕ) → n < 256 → parse_u32 (show n) ≡ some n
unfolding parse_u32 show
parse_u32-show n h = ground arith

-- Digits only.
show-no_char : (c n : ℕ) → c < 48 → n < 256 → contains c (show n) ≡ false
unfolding contains show
show-no_char c n h k = ground arith

split_once-append :
    (c : ℕ) (xs ys : List ℕ) → contains c xs ≡ false → split_once c (xs ++ c ∷ ys) ≡ some (xs, ys)
unfolding split_once contains
split_once-append c [] ys h = ground arith
split_once-append c (x ∷ xs) ys h = ground (arith, split_once-append c xs ys)

split_once-none : (c : ℕ) (xs : List ℕ) → contains c xs ≡ false → split_once c xs ≡ none
unfolding split_once contains
split_once-none c [] h = refl
split_once-none c (x ∷ xs) h = ground (arith, split_once-none c xs)

contains-append :
    (c : ℕ) (xs ys : List ℕ) → contains c (xs ++ ys) ≡ (contains c xs || contains c ys)
unfolding contains
contains-append c [] ys = refl
contains-append c (x ∷ xs) ys = ground (arith, contains-append c xs ys)

-- An octet of a mask, of which so many of the upper bits are set.
abbrev pub octet : ℕ → ℕ
octet n = 256 - 2 ^ (8 - min 8 n)

-- The mask of a length in octets: the first `bits` bits of "a.b.c.d", from the upper bit of a on. The
-- octet of a is the low byte.
abbrev pub mask_of : ℕ → ℕ
mask_of bits =
    octet bits + octet (bits - 8) * 2 ^ 8 + octet (bits - 16) * 2 ^ 16 + octet (bits - 24) * 2 ^ 24

same_below : ℕ → Bool
same_below zero = true
same_below (suc n) = prefix_to_mask n == mask_of n && same_below n

same_below-eq : (n bits : ℕ) → same_below n ≡ true → bits < n → prefix_to_mask bits ≡ mask_of bits
unfolding same_below
same_below-eq zero bits h less = absurd (omega (arith, less))
same_below-eq (suc n) bits h less = elim (Bool-cases (bits == n)) [
  | inl e ↦
      let at : bits ≡ n = ground (arith, e) in
      let here : (prefix_to_mask n == mask_of n) ≡ true = ground (arith, h) in
      ap prefix_to_mask at ∙ ((==_iff (prefix_to_mask n) (mask_of n)).0 here ∙ ap mask_of (sym at))
  | inr other ↦ same_below-eq n bits (ground (arith, h)) (ground (arith, less, other))
]

prefix_to_mask_lem : (bits : ℕ) → ltb 32 bits ≡ false → prefix_to_mask bits ≡ mask_of bits
prefix_to_mask_lem bits h =
    same_below-eq 33 bits (unfold same_below prefix_to_mask in refl) (ground (arith, h))

module _ (a b c d : ℕ) (ha : a < 256) (hb : b < 256) (hc : c < 256) (hd : d < 256) where
  address : ℕ
  address = a + b * 2 ^ 8 + c * 2 ^ 16 + d * 2 ^ 24

  packed :
      bit_or (bit_or (bit_or a (u32 (b * 2 ^ 8))) (u32 (c * 2 ^ 16))) (u32 (d * 2 ^ 24)) ≡ address
  unfolding address
  packed =
      let e8 : u32 (b * 2 ^ 8) ≡ b * 2 ^ 8 = omega arith in
      let e16 : u32 (c * 2 ^ 16) ≡ c * 2 ^ 16 = omega arith in
      let e24 : u32 (d * 2 ^ 24) ≡ d * 2 ^ 24 = omega arith in
      rw (
        e8,
        e16,
        e24,
        bit_or_below 8 b a ha,
        bit_or_below 16 c (a + b * 2 ^ 8) (omega arith),
        bit_or_below 24 d (a + b * 2 ^ 8 + c * 2 ^ 16) (omega arith),
      )

  parse_ipv4-show : parse_ipv4 (show_ipv4 a b c d) ≡ some address
  unfolding parse_ipv4 split_four show_ipv4
  parse_ipv4-show =
      rw
        (
          split_once-append b'.' (show a) (show b ++ b'.' ∷ (show c ++ b'.' ∷ show d))
              (show-no_char b'.' a (omega arith) ha),
          split_once-append b'.' (show b) (show c ++ b'.' ∷ show d)
              (show-no_char b'.' b (omega arith) hb),
          split_once-append b'.' (show c) (show d) (show-no_char b'.' c (omega arith) hc),
          parse_u32-show a ha,
          parse_u32-show b hb,
          parse_u32-show c hc,
          parse_u32-show d hd,
        )
        (ground (arith, packed))

  not_all : (rest : List ℕ) → bytes_eq (show a ++ rest) (codes "all") ≡ false
  unfolding show
  not_all rest = ground arith

  no_slash : contains b'/' (show_ipv4 a b c d) ≡ false
  unfolding show_ipv4 contains
  no_slash = ground (
    arith,
    contains-append b'/' (show a) (b'.' ∷ (show b ++ b'.' ∷ (show c ++ b'.' ∷ show d))),
    contains-append b'/' (show b) (b'.' ∷ (show c ++ b'.' ∷ show d)),
    contains-append b'/' (show c) (b'.' ∷ show d),
    show-no_char b'/' a,
    show-no_char b'/' b,
    show-no_char b'/' c,
    show-no_char b'/' d,
  )

  host_not_all : bytes_eq (show_ipv4 a b c d) (codes "all") ≡ false
  unfolding show_ipv4
  host_not_all = not_all (b'.' ∷ (show b ++ b'.' ∷ (show c ++ b'.' ∷ show d)))

  -- The dotted form of every address is read as that address, little-endian, with a full mask.
  pub parse_ipmask-host :
      parse_ipmask (show_ipv4 a b c d)
      ≡ some (record { ip = a + b * 2 ^ 8 + c * 2 ^ 16 + d * 2 ^ 24; mask = 0xFFFF_FFFF })
  unfolding parse_ipmask
  parse_ipmask-host =
      rw (host_not_all, split_once-none b'/' (show_ipv4 a b c d) no_slash, parse_ipv4-show)
        (unfold address in refl)

  -- The dotted form of an address with a number behind a slash is read as that address, little-endian; the
  -- mask has the first so many of the 32 bits of the address set, and a number over 32 is refused. The four
  -- numbers of the address and the one behind the slash are below 256.
  pub parse_ipmask-prefix :
      (bits : ℕ)
      → bits < 256
      → parse_ipmask (show_ipv4 a b c d ++ b'/' ∷ show bits) ≡ (
          if ltb 32 bits
          then none
          else some (record { ip = a + b * 2 ^ 8 + c * 2 ^ 16 + d * 2 ^ 24; mask = mask_of bits }))
  unfolding parse_ipmask
  parse_ipmask-prefix bits small =
      rw
        (
          begins bits,
          split_once-append b'/' (show_ipv4 a b c d) (show bits) no_slash,
          parse_ipv4-show,
          show-no_char b'.' bits (omega arith) small,
          parse_u32-show bits small,
        )
        (elim (Bool-cases (ltb 32 bits)) [
          | inl big ↦ rw big refl
          | inr within ↦ unfold address in rw (within, prefix_to_mask_lem bits within) refl
        ])
    where
      begins : (n : ℕ) → bytes_eq (show_ipv4 a b c d ++ b'/' ∷ show n) (codes "all") ≡ false
      begins n =
          unfold show_ipv4 in
          ap (λ t. bytes_eq t (codes "all"))
            (append_assoc (show a) (b'.' ∷ (show b ++ b'.' ∷ (show c ++ b'.' ∷ show d)))
              (b'/' ∷ show n))
          ∙ not_all _
