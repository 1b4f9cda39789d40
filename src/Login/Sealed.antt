-- ===== src/Login/Sealed.antt =====
-- Packets of src/servers/login with a trailer, ciphered: the length field, the frame, the plain bytes.
use yuri.Base.{
  ℕ, ◌+◌, ◌^◌, ◌<◌, ◌≡◌, ◌∙◌, List, [], ◌∷◌, ◌++◌, some, arith, length, u8, ◌>>>◌, length-append,
}
use yuri.Base.Bits.{bit_or_bytes}
use yuri.Network.Crypt.{set_packet_indexes, tk_crypt_static, tk_crypt_dynamic}
use yuri.Network.Cipher.{tk_crypt_dynamic_twice, tk_crypt_dynamic-Keeps}
use yuri.Network.Frame.{frame, read_framed_packet}
use yuri.Login.Message.{set_packet_indexes_behind, framed_packet}

module _ (rest : List ℕ) where
  -- The packet before the cipher.
  abbrev pub sealed : List ℕ
  sealed =
      0xAA ∷ u8 ((length rest + 3) >>> 8) ∷ u8 (length rest + 3) ∷ (rest ++ 0x13 ∷ 0x03 ∷ 0x60 ∷ [])

  pub set_packet_indexes-sealed :
      (n : ℕ)
      → n ≡ length rest
      → n + 3 < 2 ^ 16
      → set_packet_indexes ((0xAA ∷ u8 (n >>> 8) ∷ u8 n ∷ rest) ++ 0 ∷ 0 ∷ 0 ∷ [])
        ≡ some (sealed, length rest + 3 + 3)
  set_packet_indexes-sealed n e small =
      set_packet_indexes_behind 0xAA (u8 (n >>> 8)) (u8 n) 0 0 0 rest
        (bit_or_bytes (u8 (n >>> 8)) (u8 n) (omega arith) ∙ omega (arith, e, small))
        (omega (arith, e, small))

  -- Ciphered, it comes off a stream whole.
  pub sealed_frame :
      (xor_key more : List ℕ)
      → length rest + 3 < 2 ^ 16
      → read_framed_packet (tk_crypt_static sealed xor_key ++ more)
        ≡ frame (tk_crypt_static sealed xor_key) more
  unfolding tk_crypt_static
  sealed_frame xor_key more small =
      let k = tk_crypt_dynamic-Keeps sealed xor_key in
      framed_packet (tk_crypt_dynamic sealed xor_key) _ _ (rest ++ 0x13 ∷ 0x03 ∷ 0x60 ∷ []) more
        (omega (arith, length-append rest (0x13 ∷ 0x03 ∷ 0x60 ∷ []), small)) k.0 k.2

  pub sealed_opened :
      (xor_key : List ℕ) → tk_crypt_static (tk_crypt_static sealed xor_key) xor_key ≡ sealed
  unfolding tk_crypt_static
  sealed_opened xor_key = tk_crypt_dynamic_twice sealed xor_key
