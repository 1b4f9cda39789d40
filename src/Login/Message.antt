-- ===== src/Login/Message.antt =====
-- The packets of the login server on their way to a client.
use mathlib.Core.List.{append_assoc}
use yuri.Base.{
  ℕ, ◌+◌, ◌*◌, ◌^◌, ◌≤◌, ◌<◌, ◌≡◌, refl, sym, ap, ◌∙◌, List, [], ◌∷◌, ◌++◌, Option, some, arith,
  length, take, drop, get_elem?, u8, ◌>>>◌, ◌<<<◌, bit_or, length-append, length-take,
  take-append_self,
}
use yuri.Base.Bits.{bit_or_bytes}
use yuri.Base.Buffers.{◌>>=◌, store_lt, store_behind}
use yuri.Network.Crypt.{length_field, set_packet_indexes, tk_crypt_static, tk_crypt_dynamic}
use yuri.Network.Cipher.{tk_crypt_dynamic_twice, tk_crypt_dynamic-Keeps}
use yuri.Network.Frame.{frame, read_framed_packet, read_framed_packet_lem}
use yuri.Login.Packet.{message_body, build_message}

-- The trailer goes over the last three bytes, and the length field counts it.
pub set_packet_indexes_behind :
    (c hi lo t0 t1 t2 : ℕ) (rest : List ℕ)
    → bit_or (hi <<< 8) lo ≡ length rest
    → length rest + 3 < 2 ^ 16
    → set_packet_indexes ((c ∷ hi ∷ lo ∷ rest) ++ t0 ∷ t1 ∷ t2 ∷ [])
      ≡ some (
        (c ∷ u8 ((length rest + 3) >>> 8) ∷ u8 (length rest + 3) ∷ rest) ++ 0x13 ∷ 0x03 ∷ 0x60 ∷ [],
        length rest + 3 + 3,
      )
unfolding set_packet_indexes length_field
set_packet_indexes_behind c hi lo t0 t1 t2 rest field small =
    rw
      (
        field,
        store_behind (c ∷ hi ∷ lo ∷ rest) (t0 ∷ t1 ∷ t2 ∷ []) (length rest + 3) 0 0x13 (omega arith)
            (omega arith),
        store_behind (c ∷ hi ∷ lo ∷ rest) (0x13 ∷ t1 ∷ t2 ∷ []) (length rest + 3 + 1) 1 0x03
            (omega arith) (omega arith),
        store_behind (c ∷ hi ∷ lo ∷ rest) (0x13 ∷ 0x03 ∷ t2 ∷ []) (length rest + 3 + 2) 2 0x60
            (omega arith) (omega arith),
      )
      (rw
        (
          store_lt (c ∷ hi ∷ lo ∷ (rest ++ 0x13 ∷ 0x03 ∷ 0x60 ∷ [])) 1
              (u8 ((length rest + 3) >>> 8)) (omega arith),
          store_lt (c ∷ u8 ((length rest + 3) >>> 8) ∷ lo ∷ (rest ++ 0x13 ∷ 0x03 ∷ 0x60 ∷ [])) 2
              (u8 (length rest + 3)) (omega arith),
        )
        refl)

module _ (code : ℕ) (text : List ℕ) where
  text' : List ℕ
  text' = take 255 text

  short : length text' ≤ 255
  unfolding text'
  short = omega (arith, length-take 255 text)

  -- The body in two parts: the trailer's room, and what stands before it.
  said : List ℕ
  unfolding text'
  said = 0x02 ∷ 0x02 ∷ code ∷ u8 (length text') ∷ (text' ++ 0 ∷ 0 ∷ [])

  length-said : length said ≡ length text' + 6
  unfolding said
  length-said = omega (arith, length-append text' (0 ∷ 0 ∷ []))

  message_body-parts :
      message_body code text
      ≡ (0xAA ∷ u8 ((length text' + 6) >>> 8) ∷ u8 (length text' + 6) ∷ said) ++ 0 ∷ 0 ∷ 0 ∷ []
  unfolding message_body said
  message_body-parts =
      ap
        (λ t.
          0xAA
          ∷ u8 ((length text' + 6) >>> 8)
          ∷ u8 (length text' + 6)
          ∷ 0x02
          ∷ 0x02
          ∷ code
          ∷ u8 (length text')
          ∷ t)
        (sym (append_assoc text' (0 ∷ 0 ∷ []) (0 ∷ 0 ∷ 0 ∷ [])))

  field : bit_or (u8 ((length text' + 6) >>> 8) <<< 8) (u8 (length text' + 6)) ≡ length said
  field =
      bit_or_bytes (u8 ((length text' + 6) >>> 8)) (u8 (length text' + 6)) (omega arith)
      ∙ omega (arith, length-said, short)

  -- The packet before the cipher.
  abbrev sealed_body : List ℕ
  sealed_body = said ++ 0x13 ∷ 0x03 ∷ 0x60 ∷ []

  sealed : List ℕ
  sealed = 0xAA ∷ u8 ((length said + 3) >>> 8) ∷ u8 (length said + 3) ∷ sealed_body

  build_message-sealed :
      (xor_key : List ℕ) → build_message code text xor_key ≡ some (tk_crypt_static sealed xor_key)
  unfolding build_message sealed
  build_message-sealed xor_key =
      rw
        (
          message_body-parts,
          set_packet_indexes_behind 0xAA (u8 ((length text' + 6) >>> 8)) (u8 (length text' + 6)) 0 0
              0 said field (omega (arith, length-said, short)),
        )
        refl

  framed : length sealed_body ≡ u8 ((length said + 3) >>> 8) * 256 + u8 (length said + 3)
  framed = omega (arith, length-append said (0x13 ∷ 0x03 ∷ 0x60 ∷ []), length-said, short)

-- A packet that keeps its header and its length through the cipher comes off the stream whole.
pub framed_packet :
    (out : List ℕ) (hi lo : ℕ) (body rest : List ℕ)
    → length body ≡ hi * 256 + lo
    → take 5 out ≡ take 5 (0xAA ∷ hi ∷ lo ∷ body)
    → length out ≡ length (0xAA ∷ hi ∷ lo ∷ body)
    → read_framed_packet (out ++ rest) ≡ frame out rest
framed_packet [] hi lo body rest h front len = absurd (omega (arith, len))
framed_packet (x ∷ []) hi lo body rest h front len = absurd (omega (arith, len))
framed_packet (x ∷ y ∷ []) hi lo body rest h front len = absurd (omega (arith, len))
framed_packet (x ∷ y ∷ z ∷ out) hi lo body rest h front len =
    let ex : x ≡ 0xAA = cc in
    let ey : y ≡ hi = cc in
    let ez : z ≡ lo = cc in
    rw ex (read_framed_packet_lem y z out rest (omega (arith, ey, ez, h, len)))

-- What a client makes of a message: the code, and the text that the seventh byte measures.
pub read_message : List ℕ → List ℕ → Option (ℕ × List ℕ)
read_message xor_key pkt =
    let plain = tk_crypt_static pkt xor_key in
    do code ← get_elem? plain 5; n ← get_elem? plain 6; some (code, take n (drop 7 plain))

measured : (t rest : List ℕ) → length t ≤ 255 → take (u8 (length t)) ((t ++ 0 ∷ 0 ∷ []) ++ rest) ≡ t
measured t rest h =
    ap (take (u8 (length t))) (append_assoc t (0 ∷ 0 ∷ []) rest)
    ∙ take-append_self (u8 (length t)) t (0 ∷ 0 ∷ rest) (omega (arith, h))

read_sealed :
    (code : ℕ) (text xor_key : List ℕ)
    → read_message xor_key (tk_crypt_static (sealed code text) xor_key) ≡ some (code, take 255 text)
unfolding read_message tk_crypt_static
read_sealed code text xor_key = rw (tk_crypt_dynamic_twice (sealed code text) xor_key) (
    unfold sealed said text' in
    ap (λ t. some (code, t))
      (measured (take 255 text) (0x13 ∷ 0x03 ∷ 0x60 ∷ []) (unfold text' in short code text)))

-- A message is built without a panic, its frame is the whole packet, and whoever deciphers it with the
-- same key reads the code and the first 255 bytes of the text.
pub build_message_lem :
    (code : ℕ) (text xor_key rest : List ℕ)
    → (pkt : List ℕ) × (build_message code text xor_key ≡ some pkt)
      × (read_framed_packet (pkt ++ rest) ≡ frame pkt rest)
      × (read_message xor_key pkt ≡ some (code, take 255 text))
build_message_lem code text xor_key rest = (
  tk_crypt_static (sealed code text) xor_key,
  build_message-sealed code text xor_key,
  unfold tk_crypt_static sealed in
      (let k = tk_crypt_dynamic-Keeps (sealed code text) xor_key in
        framed_packet (tk_crypt_dynamic (sealed code text) xor_key) _ _ (sealed_body code text) rest
          (framed code text) k.0 k.2),
  read_sealed code text xor_key,
)
