-- ===== src/Network/Trailer.antt =====
-- The trailer of a packet and the key that is derived from it.
use yuri.Base.{
  ℕ, ◌+◌, ◌-◌, ◌≤◌, ◌<◌, ◌≡◌, sym, ap, subst, ◌∙◌, Bool, Option, none, some, List, arith, ◌^◌,
  ◌>>>◌, u8, length, get_elem?, set, get_elem?-take, get_elem?-drop, get_or-of_get_elem?,
  length-set, get_elem?-set_self, get_elem?-set_ne, Option-cases, inl, inr,
}
use yuri.Base.Bits.{bit_or_bytes}
use yuri.Network.Crypt.{length_field, set_packet_indexes, generate_key2, tk_crypt_dynamic}
use yuri.Network.Cipher.{data_len, tk_crypt_dynamic-Keeps}

-- A result that is there, and satisfies `P`.
abbrev pub Holds {ℓ} : {A : Type ℓ} → (A → Type 0) → Option A → Type 0
Holds P none = ⊥
Holds P (some a) = P a

-- A byte behind the data, or in the header, is the same in the ciphered buffer.
module _ (buff key : List ℕ) where
  header_kept : (i : ℕ) → i < 5 → get_elem? (tk_crypt_dynamic buff key) i ≡ get_elem? buff i
  header_kept i lt =
      let k = tk_crypt_dynamic-Keeps buff key in
      sym (get_elem?-take 5 (tk_crypt_dynamic buff key) i lt)
      ∙ ap (λ l. get_elem? l i) k.0
      ∙ get_elem?-take 5 buff i lt

  behind_kept :
      (i : ℕ)
      → get_elem? (tk_crypt_dynamic buff key) (5 + data_len buff + i)
        ≡ get_elem? buff (5 + data_len buff + i)
  behind_kept i =
      let k = tk_crypt_dynamic-Keeps buff key in
      sym (get_elem?-drop (5 + data_len buff) (tk_crypt_dynamic buff key) i)
      ∙ ap (λ l. get_elem? l i) k.1
      ∙ get_elem?-drop (5 + data_len buff) buff i

length_field-data_len : (buff : List ℕ) (n : ℕ) → length_field buff ≡ some n → data_len buff ≡ n - 5
unfolding length_field
length_field-data_len buff n h = elim (Option-cases (get_elem? buff 1)) [
  | inl e ↦ absurd (ground (arith, e, h))
  | inr (hi, e) ↦ elim (Option-cases (get_elem? buff 2)) [
    | inl f ↦ absurd (ground (arith, e, f, h))
    | inr (lo, f) ↦
        ground
          (arith, e, f, h, get_or-of_get_elem? buff 1 0 hi e, get_or-of_get_elem? buff 2 0 lo f)
  ]
]

-- The key of a packet is derived from its trailer, which the cipher leaves alone: whoever gets the
-- ciphered packet derives the key that it was ciphered with.
pub generate_key2-tk_crypt_dynamic :
    (buff key table : List ℕ) (fromclient : Bool) (n : ℕ)
    → length_field buff ≡ some n
    → 5 ≤ n
    → generate_key2 (tk_crypt_dynamic buff key) table fromclient
      ≡ generate_key2 buff table fromclient
unfolding generate_key2
generate_key2-tk_crypt_dynamic buff key table fromclient n h five =
    rw (same_field ∙ h, h, at 1, at 2, at0)
  where
    same_field : length_field (tk_crypt_dynamic buff key) ≡ length_field buff
    same_field =
        unfold length_field in
        rw (header_kept buff key 1 (omega arith), header_kept buff key 2 (omega arith))

    at : (i : ℕ) → get_elem? (tk_crypt_dynamic buff key) (n + i) ≡ get_elem? buff (n + i)
    at i =
        let e : 5 + data_len buff ≡ n = omega (arith, length_field-data_len buff n h) in
        subst (λ k. get_elem? (tk_crypt_dynamic buff key) (k + i) ≡ get_elem? buff (k + i)) e
          (behind_kept buff key i)

    at0 : get_elem? (tk_crypt_dynamic buff key) n ≡ get_elem? buff n
    at0 =
        let z : n + 0 ≡ n = omega arith in
        subst (λ k. get_elem? (tk_crypt_dynamic buff key) k ≡ get_elem? buff k) z (at 0)

-- The five writes, one behind the other.
module _ (packet : List ℕ) (n : ℕ) (len : length packet ≡ n + 6) (small : n + 3 < 2 ^ 16) where
  abbrev w1 : List ℕ
  w1 = set packet (n + 3) 0x13

  abbrev w2 : List ℕ
  w2 = set w1 (n + 3 + 1) 0x03

  abbrev w3 : List ℕ
  w3 = set w2 (n + 3 + 2) 0x60

  abbrev w4 : List ℕ
  w4 = set w3 1 (u8 ((n + 3) >>> 8))

  abbrev w5 : List ℕ
  w5 = set w4 2 (u8 (n + 3))

  lengths :
      (length w1 ≡ n + 6)
      × (length w2 ≡ n + 6)
      × (length w3 ≡ n + 6)
      × (length w4 ≡ n + 6)
      × (length w5 ≡ n + 6)
  lengths = omega (
    arith,
    length-set packet (n + 3) 0x13,
    length-set w1 (n + 3 + 1) 0x03,
    length-set w2 (n + 3 + 2) 0x60,
    length-set w3 1 (u8 ((n + 3) >>> 8)),
    length-set w4 2 (u8 (n + 3)),
  )

  -- The length field is written last, and leaves the trailer as it is.
  behind_field : (i : ℕ) → 3 ≤ i → get_elem? w5 i ≡ get_elem? w3 i
  behind_field i h =
      get_elem?-set_ne w4 2 i (u8 (n + 3)) (omega arith)
      ∙ get_elem?-set_ne w3 1 i (u8 ((n + 3) >>> 8)) (omega arith)

  trailer0 : get_elem? w5 (n + 3) ≡ some 0x13
  trailer0 =
      behind_field (n + 3) (omega arith)
      ∙ get_elem?-set_ne w2 (n + 3 + 2) (n + 3) 0x60 (omega arith)
      ∙ get_elem?-set_ne w1 (n + 3 + 1) (n + 3) 0x03 (omega arith)
      ∙ get_elem?-set_self packet (n + 3) 0x13 (omega arith)

  trailer1 : get_elem? w5 (n + 3 + 1) ≡ some 0x03
  trailer1 =
      behind_field (n + 3 + 1) (omega arith)
      ∙ get_elem?-set_ne w2 (n + 3 + 2) (n + 3 + 1) 0x60 (omega arith)
      ∙ get_elem?-set_self w1 (n + 3 + 1) 0x03 (omega (arith, lengths))

  trailer2 : get_elem? w5 (n + 3 + 2) ≡ some 0x60
  trailer2 =
      behind_field (n + 3 + 2) (omega arith)
      ∙ get_elem?-set_self w2 (n + 3 + 2) 0x60 (omega (arith, lengths))

  field_hi : get_elem? w5 1 ≡ some (u8 ((n + 3) >>> 8))
  field_hi =
      get_elem?-set_ne w4 2 1 (u8 (n + 3)) (omega arith)
      ∙ get_elem?-set_self w3 1 (u8 ((n + 3) >>> 8)) (omega (arith, lengths))

  field_lo : get_elem? w5 2 ≡ some (u8 (n + 3))
  field_lo = get_elem?-set_self w4 2 (u8 (n + 3)) (omega (arith, lengths))

  sealed_field : length_field w5 ≡ some (n + 3)
  unfolding length_field
  sealed_field =
      rw (field_hi, field_lo)
        (ap some (bit_or_bytes (u8 ((n + 3) >>> 8)) (u8 (n + 3)) (omega arith) ∙ omega arith))

-- The trailer of a packet that has room for it: three bytes behind the payload, and a length field
-- that counts them and the header, so that the frame is the whole buffer.
pub set_packet_indexes_lem :
    (packet : List ℕ) (n : ℕ)
    → length_field packet ≡ some n
    → length packet ≡ n + 6
    → n + 3 < 2 ^ 16
    → Holds
        (λ r.
          (r.1 ≡ n + 6)
          × (length r.0 ≡ n + 6)
          × (length_field r.0 ≡ some (n + 3))
          × (get_elem? r.0 (n + 3) ≡ some 0x13)
          × (get_elem? r.0 (n + 3 + 1) ≡ some 0x03)
          × (get_elem? r.0 (n + 3 + 2) ≡ some 0x60))
        (set_packet_indexes packet)
unfolding set_packet_indexes
set_packet_indexes_lem packet n h len small = rw h (
    ground (
      arith,
      lengths packet n len small,
      sealed_field packet n len small,
      trailer0 packet n len small,
      trailer1 packet n len small,
      trailer2 packet n len small,
    ))
