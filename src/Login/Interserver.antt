-- ===== src/Login/Interserver.antt =====
-- src/servers/login/interserver.rs: the link of the login server to the character server, and the
-- answers that a client gets. The stream is the list of the bytes that still arrive.
use yuri.Base.{
  ℕ, ◌+◌, ◌-◌, ◌*◌, ◌^◌, Bool, true, false, not, ◌||◌, List, [], ◌∷◌, ◌++◌, Option, some,
  if◌then◌else◌, ltb, ◌==◌, length, take, drop, get_or, u8, ◌>>>◌,
}
use yuri.Base.Buffers.{◌>>=◌, be16, be32}
use yuri.Config.{ServerConfig, Text, same_text}
use yuri.Network.Crypt.{set_packet_indexes, tk_crypt_static}
use yuri.Login.Text.{text_of}
use yuri.Login.Packet.{padded, build_message, build_intif_auth_response}
use yuri.Login.Client.{
  LoginState, Lgn, errserver, wrongpass, wronguser, errdb, userexist, newchar, chgpass, dbllogin,
  banned,
}

-- The lengths of the commands 0x2000 to 0x2005.
abbrev pub response_lens : List ℕ
response_lens = 69 ∷ 5 ∷ 5 ∷ 27 ∷ 5 ∷ 0 ∷ []

-- A round of the loop: the connection is over, a command is skipped, or a response is there with the
-- session that it is for.
pub data Routed : Type 0 where
  over : Routed
  skipped : (rest : List ℕ) → Routed
  routed : (session_id : ℕ) (pkt rest : List ℕ) → Routed

unfoldable pub response_len : ℕ → ℕ
response_len cmd = if ltb cmd 0x2000 then 0 else get_or response_lens (cmd - 0x2000) 0

unfoldable pub response_round : List ℕ → Routed
unfolding response_len
response_round (b0 ∷ b1 ∷ stream) =
    let n = response_len (b0 + b1 * 2 ^ 8) in
    let pkt = b0 ∷ b1 ∷ take (n - 2) stream in
    if n == 0
    then skipped stream
    else if ltb (length stream) (n - 2)
    then over
    else routed (get_or pkt 2 0 + get_or pkt 3 0 * 2 ^ 8) pkt (drop (n - 2) stream)
response_round stream = over

-- The check of the handshake: the answer, and whether the sender is the character server from now on.
unfoldable pub promote_to_charserver : ServerConfig → Bool → List ℕ → List ℕ × Bool
unfolding build_intif_auth_response
promote_to_charserver config connected first =
    let plain = tk_crypt_static first config.xor_key in
    let login_id = text_of (take 32 (drop 5 plain)) in
    let login_pw = text_of (take 32 (drop 37 plain)) in
    if connected
    then (build_intif_auth_response false, false)
    else if ltb (length first) 69
    then (build_intif_auth_response false, false)
    else if not (same_text login_id config.login_id) || not (same_text login_pw config.login_pw)
    then (build_intif_auth_response false, false)
    else (build_intif_auth_response true, true)

-- The packets for the client, where the server does not panic.
abbrev pub Replies : Type 0
Replies = Option (List (List ℕ))

unfoldable pub session_ok : List ℕ → Option (List ℕ)
session_ok xor_key = do
  indexed ←
      set_packet_indexes (0xAA ∷ 0x00 ∷ 0x05 ∷ 0x02 ∷ 0x17 ∷ 0x00 ∷ 0x00 ∷ 0x00 ∷ 0 ∷ 0 ∷ 0 ∷ [])
  some (tk_crypt_static indexed.0 xor_key)

-- The redirect behind its header: the address, the port, the key, the name and the session.
unfoldable pub redirect_body : List ℕ → List ℕ → List ℕ
redirect_body xor_key pkt =
    let char_name = text_of (take 16 (drop 5 pkt)) in
    0x03
    ∷ get_or pkt 24 0
    ∷ get_or pkt 23 0
    ∷ get_or pkt 22 0
    ∷ get_or pkt 21 0
    ∷ (be16 (get_or pkt 25 0 + get_or pkt 26 0 * 2 ^ 8)
        ++ (u8 (length char_name + 16)
            ∷ (be16 9
                ++ (padded 9 xor_key
                    ++ (u8 (length char_name)
                        ∷ (char_name ++ be32 (get_or pkt 2 0 + get_or pkt 3 0 * 2 ^ 8)))))))

unfoldable pub redirect : List ℕ → List ℕ → Option (List ℕ)
unfolding redirect_body
redirect xor_key pkt =
    let payload_len = length (text_of (take 16 (drop 5 pkt))) + 24 in
    do
      indexed ← set_packet_indexes (
          (0xAA ∷ u8 (payload_len >>> 8) ∷ u8 payload_len ∷ redirect_body xor_key pkt)
          ++ 0 ∷ 0 ∷ 0 ∷ [])
      some (tk_crypt_static indexed.0 xor_key)

unfoldable pub send_auth_success : List ℕ → List ℕ → Replies
unfolding session_ok redirect
send_auth_success xor_key pkt = do
  buf1 ← session_ok xor_key
  buf2 ← redirect xor_key pkt
  some (buf1 ∷ buf2 ∷ [])

-- One message.
unfoldable pub say : LoginState → ℕ → Text → Replies
say state code text = do pkt ← build_message code text state.config.xor_key; some (pkt ∷ [])

unfoldable pub dispatch_char_response : LoginState → List ℕ → Replies
unfolding say send_auth_success
dispatch_char_response state pkt =
    let cmd = get_or pkt 0 0 + get_or pkt 1 0 * 2 ^ 8 in
    let code = get_or pkt 4 0 in
    let says = λ (c : ℕ) (lgn : Lgn). say state c (state.messages lgn) in
    let short = ltb (length pkt) 5 in
    if ltb (length pkt) 2
    then some []
    else if cmd == 0x2001
    then (if short
        then some []
        else if code == 0x01
        then says 0x03 userexist
        else if code == 0x00
        then say state 0x00 (0x00 ∷ [])
        else says 0x03 errdb)
    else if cmd == 0x2002
    then (if short
        then some []
        else if code == 0x01
        then says 0x03 userexist
        else if code == 0x00
        then says 0x00 newchar
        else says 0x03 errdb)
    else if cmd == 0x2003
    then (if ltb (length pkt) 27
        then some []
        else if code == 0x00
        then send_auth_success state.config.xor_key pkt
        else if code == 0x01
        then says 0x03 errdb
        else if code == 0x02
        then says 0x03 wronguser
        else if code == 0x03
        then says 0x03 wrongpass
        else if code == 0x04
        then says 0x03 banned
        else if code == 0x05
        then says 0x03 errserver
        else if code == 0x06
        then says 0x03 dbllogin
        else some [])
    else if cmd == 0x2004
    then (if short
        then some []
        else if code == 0x00
        then says 0x00 chgpass
        else if code == 0x01
        then says 0x03 errdb
        else if code == 0x02
        then says 0x03 wronguser
        else if code == 0x03
        then says 0x03 wrongpass
        else some [])
    else some []
