-- ===== src/Network/Cipher.antt =====
-- The packet cipher undoes itself, and leaves the header and the trailer alone.
use mathlib.Core.List.{append_assoc}
use yuri.Base.{
  ℕ, suc, ◌+◌, ◌-◌, ◌≤◌, ◌<◌, ◌≡◌, refl, sym, ap, ap₂, subst, ◌∙◌, Bool, true, false, inl, inr,
  List, [], ◌∷◌, ◌++◌, arith, ltb, ◌==◌, ◌||◌, ◌%◌, ◌<<<◌, bit_or, bit_xor, length, get_or, take,
  drop, Bool-cases, length-append, length-take, length-drop, take-append_self, drop-append_self,
  take-append-drop, get_or-append_lt, drop-drop,
}
use yuri.Base.Bits.{bit_xor_cancel, bit_xor_swap}
use yuri.Network.Crypt.{crypt_byte, crypt_loop, pad_key, tk_crypt_dynamic}

-- Two keys, then three, applied twice.
twice_two : (b k p : ℕ) → bit_xor (bit_xor (bit_xor (bit_xor b k) p) k) p ≡ b
twice_two b k p = cc (bit_xor_swap (bit_xor b k) p k, bit_xor_cancel b k, bit_xor_cancel b p)

twice_three :
    (b k v p : ℕ) → bit_xor (bit_xor (bit_xor (bit_xor (bit_xor (bit_xor b k) v) p) k) v) p ≡ b
twice_three b k v p = cc (
  bit_xor_swap (bit_xor (bit_xor b k) v) p k,
  bit_xor_swap (bit_xor b k) v k,
  bit_xor_cancel b k,
  bit_xor_swap (bit_xor b v) p v,
  bit_xor_cancel b v,
  bit_xor_cancel b p,
)

crypt_byte_twice :
    (key : List ℕ) (inc i group b : ℕ)
    → crypt_byte key inc i group (crypt_byte key inc i group b) ≡ b
unfolding crypt_byte
crypt_byte_twice key inc i group b = elim (Bool-cases (group % 256 == inc)) [
  | inl e ↦ rw e (twice_two b (get_or key (i % 9) 0) inc)
  | inr e ↦ rw e (twice_three b (get_or key (i % 9) 0) (group % 256) inc)
]

crypt_loop_twice :
    (key : List ℕ) (inc i group count : ℕ) (bs : List ℕ)
    → crypt_loop key inc i group count (crypt_loop key inc i group count bs) ≡ bs
unfolding crypt_loop
crypt_loop_twice key inc i group count [] = refl
crypt_loop_twice key inc i group count (b ∷ bs) =
    ap₂ ◌∷◌ (crypt_byte_twice key inc i group b) (crypt_loop_twice key inc (i + 1) _ _ bs)

length-crypt_loop :
    (key : List ℕ) (inc i group count : ℕ) (bs : List ℕ)
    → length (crypt_loop key inc i group count bs) ≡ length bs
unfolding crypt_loop
length-crypt_loop key inc i group count [] = refl
length-crypt_loop key inc i group count (b ∷ bs) = ap suc (length-crypt_loop key inc (i + 1) _ _ bs)

-- The length of the data that a header announces.
abbrev pub data_len : List ℕ → ℕ
data_len buff = bit_or (get_or buff 1 0 <<< 8) (get_or buff 2 0) - 5

-- The cipher on a buffer in three parts: the header of five bytes, the data that it announces, the
-- rest.
module _ (key h d t : List ℕ) (h_len : length h ≡ 5) (d_len : data_len h ≡ length d)
    (short : length d ≤ 65535) (keyed : (length key == 0) ≡ false) where
  whole : List ℕ
  whole = h ++ d ++ t

  header_byte : (i : ℕ) → i < 5 → get_or whole i 0 ≡ get_or h i 0
  unfolding whole
  header_byte i lt =
      get_or-append_lt (h ++ d) t i 0 (omega (arith, length-append h d))
      ∙ get_or-append_lt h d i 0 (omega arith)

  regrouped : whole ≡ h ++ (d ++ t)
  unfolding whole
  regrouped = append_assoc h d t

  data_part : take (length d) (drop 5 whole) ≡ d
  data_part =
      ap (take (length d)) (ap (drop 5) regrouped ∙ drop-append_self 5 h (d ++ t) h_len)
      ∙ take-append_self (length d) d t refl

  pub tk_crypt_dynamic_parts :
      tk_crypt_dynamic (h ++ d ++ t) key ≡ h ++ crypt_loop (pad_key key) (get_or h 4 0) 0 0 0 d ++ t
  unfolding tk_crypt_dynamic whole
  tk_crypt_dynamic_parts =
      rw
        (
          header_byte 1 (omega arith),
          header_byte 2 (omega arith),
          header_byte 4 (omega arith),
          d_len,
          keyed,
          data_part,
          drop-append_self (5 + length d) (h ++ d) t (omega (arith, length-append h d)),
          ap (take 5) regrouped ∙ take-append_self 5 h (d ++ t) h_len,
        )
        (ground (arith, length-append (h ++ d) t, length-append h d))

module _ (key h d t : List ℕ) (h_len : length h ≡ 5) (d_len : data_len h ≡ length d)
    (short : length d ≤ 65535) (keyed : (length key == 0) ≡ false) where
  twice_parts : tk_crypt_dynamic (tk_crypt_dynamic (h ++ d ++ t) key) key ≡ h ++ d ++ t
  twice_parts =
      let inc = get_or h 4 0 in
      let d' = crypt_loop (pad_key key) inc 0 0 0 d in
      let same = length-crypt_loop (pad_key key) inc 0 0 0 d in
      ap (λ b. tk_crypt_dynamic b key) (tk_crypt_dynamic_parts key h d t h_len d_len short keyed)
      ∙ tk_crypt_dynamic_parts key h d' t h_len (d_len ∙ sym same) (rw same short) keyed
      ∙ ap (λ x. h ++ x ++ t) (crypt_loop_twice (pad_key key) inc 0 0 0 d)

-- A buffer that the cipher changes, cut into its three parts.
module _ (buff key : List ℕ) (five : 5 ≤ length buff) (keyed : (length key == 0) ≡ false)
    (short : data_len buff ≤ 65535) (fits : 5 + data_len buff ≤ length buff) where
  abbrev Cut : List ℕ → List ℕ → List ℕ → Type 0
  Cut h d t = (h ++ d ++ t ≡ buff) × (length h ≡ 5) × (data_len h ≡ length d) × (length d ≤ 65535)

  front_byte : (i : ℕ) → i < 5 → get_or (take 5 buff) i 0 ≡ get_or buff i 0
  front_byte i lt =
      sym (get_or-append_lt (take 5 buff) (drop 5 buff) i 0 (omega (arith, length-take 5 buff)))
      ∙ ap (λ b. get_or b i 0) (take-append-drop 5 buff)

  front_len : data_len (take 5 buff) ≡ data_len buff
  front_len = rw (front_byte 1 (omega arith), front_byte 2 (omega arith))

  rejoined :
      take 5 buff ++ take (data_len buff) (drop 5 buff) ++ drop (5 + data_len buff) buff ≡ buff
  rejoined =
      append_assoc (take 5 buff) (take (data_len buff) (drop 5 buff))
        (drop (5 + data_len buff) buff)
      ∙ ap (λ r. take 5 buff ++ (take (data_len buff) (drop 5 buff) ++ r))
          (sym (drop-drop 5 (data_len buff) buff))
      ∙ ap (λ r. take 5 buff ++ r) (take-append-drop (data_len buff) (drop 5 buff))
      ∙ take-append-drop 5 buff

  parts-Cut : Cut (take 5 buff) (take (data_len buff) (drop 5 buff)) (drop (5 + data_len buff) buff)
  parts-Cut =
      let d_len = length-take (data_len buff) (drop 5 buff) in
      (
        rejoined,
        omega (arith, length-take 5 buff),
        omega (arith, front_len, d_len, length-drop 5 buff),
        omega (arith, d_len),
      )

  twice_whole : tk_crypt_dynamic (tk_crypt_dynamic buff key) key ≡ buff
  twice_whole =
      let c = parts-Cut in
      subst (λ b. tk_crypt_dynamic (tk_crypt_dynamic b key) key ≡ b) c.0
        (twice_parts key _ _ _ c.1 c.2 c.3 keyed)

-- A buffer that the cipher leaves alone.
skipped : List ℕ → List ℕ → Bool
skipped buff key =
    ltb (length buff) 5
    || length key == 0
    || ltb 65535 (data_len buff)
    || ltb (length buff) (5 + data_len buff)

tk_crypt_dynamic-skipped :
    (buff key : List ℕ) → skipped buff key ≡ true → tk_crypt_dynamic buff key ≡ buff
unfolding skipped tk_crypt_dynamic
tk_crypt_dynamic-skipped buff key h = ground arith

-- The cipher is its own inverse, on every buffer and with every key.
pub tk_crypt_dynamic_twice :
    (buff key : List ℕ) → tk_crypt_dynamic (tk_crypt_dynamic buff key) key ≡ buff
tk_crypt_dynamic_twice buff key = elim (Bool-cases (skipped buff key)) [
  | inl skip ↦
      let same = tk_crypt_dynamic-skipped buff key skip in
      ap (λ b. tk_crypt_dynamic b key) same ∙ same
  | inr enters ↦
      twice_whole buff key (unfold skipped in ground arith) (unfold skipped in ground arith)
        (unfold skipped in ground arith) (unfold skipped in ground arith)
]

-- The bytes that the cipher leaves alone.
abbrev pub Keeps : List ℕ → List ℕ → Type 0
Keeps buff out =
    (take 5 out ≡ take 5 buff)
    × (drop (5 + data_len buff) out ≡ drop (5 + data_len buff) buff)
    × (length out ≡ length buff)

module _ (key h d t : List ℕ) (h_len : length h ≡ 5) (d_len : data_len h ≡ length d)
    (short : length d ≤ 65535) (keyed : (length key == 0) ≡ false)
    (whole_len : data_len (h ++ d ++ t) ≡ length d) where
  Keeps-parts : Keeps (h ++ d ++ t) (tk_crypt_dynamic (h ++ d ++ t) key)
  Keeps-parts =
      let d' = crypt_loop (pad_key key) (get_or h 4 0) 0 0 0 d in
      let same : length d' ≡ length d = length-crypt_loop (pad_key key) (get_or h 4 0) 0 0 0 d in
      rw (tk_crypt_dynamic_parts key h d t h_len d_len short keyed, whole_len)
        (
          front d' ∙ sym (front d),
          drop-append_self (5 + length d) (h ++ d') t (omega (arith, length-append h d', same))
              ∙ sym (drop-append_self (5 + length d) (h ++ d) t (omega (arith, length-append h d))),
          omega (
            arith,
            same,
            length-append (h ++ d') t,
            length-append h d',
            length-append (h ++ d) t,
            length-append h d,
          ),
        )
    where
      front : (x : List ℕ) → take 5 (h ++ x ++ t) ≡ h
      front x = ap (take 5) (append_assoc h x t) ∙ take-append_self 5 h (x ++ t) h_len

-- The cipher changes neither the header nor what stands behind the announced data, nor the length.
pub tk_crypt_dynamic-Keeps : (buff key : List ℕ) → Keeps buff (tk_crypt_dynamic buff key)
tk_crypt_dynamic-Keeps buff key = elim (Bool-cases (skipped buff key)) [
  | inl skip ↦ rw (tk_crypt_dynamic-skipped buff key skip) (refl, refl, refl)
  | inr enters ↦
      let five : 5 ≤ length buff = unfold skipped in ground arith in
      let keyed : (length key == 0) ≡ false = unfold skipped in ground arith in
      let short : data_len buff ≤ 65535 = unfold skipped in ground arith in
      let fits : 5 + data_len buff ≤ length buff = unfold skipped in ground arith in
      let c = parts-Cut buff key five keyed short fits in
      subst (λ b. Keeps b (tk_crypt_dynamic b key)) c.0
        (Keeps-parts key _ _ _ c.1 c.2 c.3 keyed
          (ap data_len c.0 ∙ sym (front_len buff key five keyed short fits) ∙ c.2))
]
