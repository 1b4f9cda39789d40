-- ===== src/Login/Packet.antt =====
-- src/servers/login/packet.rs: the packets that the login server builds. The source writes into a
-- buffer of zeros; here the buffer is the list of what stands in it.
use yuri.Base.{
  ◌≡◌, arith, length-append, length-take, length-replicate, ℕ, ◌+◌, ◌-◌, Bool, List, [], ◌∷◌, ◌++◌,
  Option, some, if◌then◌else◌, length, take, replicate, u8, ◌>>>◌,
}
use yuri.Base.Buffers.{◌>>=◌, be16}
use yuri.Network.Crypt.{set_packet_indexes, tk_crypt_static}
use yuri.Network.Frame.{FrameResult, read_framed_packet}

unfoldable pub read_client_packet : List ℕ → FrameResult
unfolding read_framed_packet
read_client_packet stream = read_framed_packet stream

-- The first `n` bytes of a text, in a field of `n` zeros.
abbrev pub padded : ℕ → List ℕ → List ℕ
padded n s = take n s ++ replicate (n - length s) 0

pub length-padded : (n : ℕ) (s : List ℕ) → length (padded n s) ≡ n
length-padded n s = omega (
  arith,
  length-append (take n s) (replicate (n - length s) 0),
  length-take n s,
  length-replicate {A = ℕ} (n - length s) 0,
)

-- The buffer of a message before its trailer.
unfoldable pub message_body : ℕ → List ℕ → List ℕ
message_body code text =
    let text' = take 255 text in
    let payload_len = length text' + 6 in
    (0xAA ∷ u8 (payload_len >>> 8) ∷ u8 payload_len ∷ 0x02 ∷ 0x02 ∷ code ∷ u8 (length text') ∷ [])
    ++ (text' ++ replicate 5 0)

-- `none` is a panic.
unfoldable pub build_message : ℕ → List ℕ → List ℕ → Option (List ℕ)
unfolding message_body
build_message code text xor_key = do
  indexed ← set_packet_indexes (message_body code text)
  some (tk_crypt_static indexed.0 xor_key)

unfoldable pub build_version_ok : List ℕ → List ℕ
build_version_ok xor_key =
    (0xAA ∷ 0x00 ∷ 0x11 ∷ 0x00 ∷ 0x00 ∷ 0x27 ∷ 0x4F ∷ 0x8A ∷ 0x4A ∷ 0x00 ∷ 0x09 ∷ [])
    ++ padded 9 xor_key

unfoldable pub build_version_patch : ℕ → List ℕ → List ℕ
build_version_patch nex_version patch_url =
    (0xAA ∷ 0x00 ∷ 0x29 ∷ 0x00 ∷ 0x02 ∷ [])
    ++ be16 nex_version
    ++ (0x01 ∷ 0x23 ∷ [])
    ++ padded 38 patch_url

unfoldable pub build_intif_auth_response : Bool → List ℕ
build_intif_auth_response accepted = 0x00 ∷ 0x10 ∷ (if accepted then 0x00 else 0x01) ∷ []
