-- ===== src/Network/Crypt.antt =====
-- src/network/crypt.rs: which opcodes use the fixed key, the table of a name, the trailer of a
-- packet, the key of a packet, and the cipher. A buffer is a list of bytes. MD5 is not implemented
-- here: its digest in hexadecimal is a parameter.
use yuri.Base.{
  ℕ, zero, suc, ◌+◌, ◌-◌, ◌*◌, ◌%◌, Bool, false, not, ◌||◌, Option, none, some, List, [], ◌∷◌, ◌++◌,
  if◌then◌else◌, ltb, ◌==◌, bit_and, bit_or, bit_xor, ◌<<<◌, ◌>>>◌, u8, u16, u32, length, get_elem?,
  get_or, take, drop, replicate,
}
use yuri.Base.Buffers.{◌>>=◌, store}

abbrev pub cl_key1_packets : List ℕ
cl_key1_packets = 2 ∷ 3 ∷ 4 ∷ 11 ∷ 21 ∷ 38 ∷ 58 ∷ 66 ∷ 67 ∷ 75 ∷ 80 ∷ 87 ∷ 98 ∷ 113 ∷ 115 ∷ 123 ∷ []

abbrev pub sv_key1_packets : List ℕ
sv_key1_packets = 2 ∷ 3 ∷ 10 ∷ 64 ∷ 68 ∷ 94 ∷ 96 ∷ 98 ∷ 102 ∷ 111 ∷ []

abbrev pub contains : List ℕ → ℕ → Bool
contains [] a = false
contains (x ∷ xs) a = x == a || contains xs a

unfoldable pub is_key_client : ℕ → Bool
is_key_client opcode = not (contains cl_key1_packets opcode)

unfoldable pub is_key_server : ℕ → Bool
is_key_server opcode = not (contains sv_key1_packets opcode)

-- The length field: bytes 1 and 2, the high byte first.
unfoldable pub length_field : List ℕ → Option ℕ
length_field packet = do
  hi ← get_elem? packet 1
  lo ← get_elem? packet 2
  some (bit_or (hi <<< 8) lo)

-- The fixed value of the random number, 0x1337, in the precedence of Rust: % before + before &.
abbrev pub trailer_k1 : ℕ
trailer_k1 = bit_xor (u8 (bit_and 0x1337 (0x7FFF % 0x9B + 0x64))) 0x21

abbrev pub trailer_k2 : ℕ
trailer_k2 = bit_xor (u16 (bit_and 0x1337 0x7FFF) + 0x100) 0x7424

-- The packet with its trailer and its new length field, and the number of bytes.
unfoldable pub set_packet_indexes : List ℕ → Option (List ℕ × ℕ)
set_packet_indexes packet = do
  payload ← length_field packet
  let psize = payload + 3
  p0 ← store packet psize (u8 trailer_k2)
  p1 ← store p0 (psize + 1) trailer_k1
  p2 ← store p1 (psize + 2) (u8 (trailer_k2 >>> 8))
  p3 ← store p2 1 (u8 (psize >>> 8))
  p4 ← store p3 2 (u8 psize)
  some (p4, psize + 3)

-- The loop of `generate_key2` from round `i`, `left` rounds to go.
unfoldable pub key2_loop : List ℕ → ℕ → ℕ → ℕ → ℕ → Option (List ℕ)
key2_loop table k2 zero i k1 = some (0 ∷ [])
key2_loop table k2 (suc left) i k1 =
    let rest = key2_loop table k2 left (i + 1) (u32 (k1 + 3)) in
    get_elem? table (bit_and (u32 (k1 * i + k2)) 0x3FF) >>= λ b. rest >>= λ bs. some (b ∷ bs)

-- `keyout`: nine bytes of the table and a zero.
unfoldable pub generate_key2 : List ℕ → List ℕ → Bool → Option (List ℕ)
unfolding length_field key2_loop
generate_key2 packet table fromclient = do
  psize ← length_field packet
  b1 ← get_elem? packet (psize + 1)
  b2 ← get_elem? packet (psize + 2)
  b0 ← get_elem? packet psize
  let k1 = bit_xor b1 (if fromclient then 0x25 else 0x21)
  let k2 = bit_xor (bit_or (b2 <<< 8) b0) (if fromclient then 0x2361 else 0x7424)
  key2_loop table k2 9 0 (u32 (k1 * k1))

-- What the loop of `tk_crypt_dynamic` does to the byte at index `i` of the data: `group` is
-- `i / 9`, kept by a counter in the source.
unfoldable pub crypt_byte : List ℕ → ℕ → ℕ → ℕ → ℕ → ℕ
crypt_byte key packet_inc i group b =
    let d = bit_xor b (get_or key (i % 9) 0) in
    let key_val = group % 256 in
    bit_xor (if key_val == packet_inc then d else bit_xor d key_val) packet_inc

-- The loop over the data from index `i`, with the two counters.
unfoldable pub crypt_loop : List ℕ → ℕ → ℕ → ℕ → ℕ → List ℕ → List ℕ
crypt_loop key packet_inc i group group_count [] = []
crypt_loop key packet_inc i group group_count (b ∷ bs) =
    crypt_byte key packet_inc i group b
    ∷ crypt_loop key packet_inc (i + 1) (if group_count + 1 == 9 then group + 1 else group)
        (if group_count + 1 == 9 then 0 else group_count + 1) bs

-- The key padded with zeros to nine bytes, or cut to nine.
unfoldable pub pad_key : List ℕ → List ℕ
pad_key key = take 9 key ++ replicate (9 - length key) 0

unfoldable pub tk_crypt_dynamic : List ℕ → List ℕ → List ℕ
tk_crypt_dynamic buff key =
    if ltb (length buff) 5 || length key == 0
    then buff
    else let packet_len = bit_or (get_or buff 1 0 <<< 8) (get_or buff 2 0) - 5 in
      let packet_inc = get_or buff 4 0 in
      if ltb 65535 packet_len || ltb (length buff) (5 + packet_len)
      then buff
      else take 5 buff
        ++ crypt_loop (pad_key key) packet_inc 0 0 0 (take packet_len (drop 5 buff))
        ++ drop (5 + packet_len) buff

unfoldable pub tk_crypt_static : List ℕ → List ℕ → List ℕ
tk_crypt_static buff xor_key = tk_crypt_dynamic buff xor_key

-- `md5_hex input` is the digest of `input` as 32 lower-case hexadecimal digits.
module _ (md5_hex : List ℕ → List ℕ) where
  -- `out[..32]` and the zero behind it; none is the `false` for a buffer that is too short.
  unfoldable pub generate_hashvalues : List ℕ → List ℕ → Option (List ℕ)
  generate_hashvalues input out =
      if ltb (length out) 33 then none else some (md5_hex input ++ 0 ∷ drop 33 out)

  -- The rounds left: each appends the digest of the table so far.
  unfoldable pub table_loop : ℕ → List ℕ → List ℕ
  table_loop zero filled = filled
  table_loop (suc left) filled = table_loop left (filled ++ md5_hex filled)

  unfoldable pub populate_table : List ℕ → List ℕ → Option (List ℕ)
  unfolding table_loop
  populate_table name table =
      if ltb (length table) 0x401
      then none
      else let filled = table_loop 31 (md5_hex (md5_hex name)) in
        some (filled ++ 0 ∷ drop (length filled + 1) table)
