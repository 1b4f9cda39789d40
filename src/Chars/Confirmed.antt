-- ===== src/Chars/Confirmed.antt =====
-- The redirect of an admitted player: from the character server's answer to what the client reads.

use yuri.Base.{
  ℕ, suc, ◌+◌, ◌*◌, ◌%◌, ◌^◌, ◌≤◌, ◌<◌, ◌≡◌, refl, sym, ap, ◌∙◌, true, false, List, [], ◌∷◌, ◌++◌,
  some, arith, ltb, length, take, drop, get_or, get_or-drop, length-append, take-append_self,
  drop-append_self,
}
use yuri.Base.Buffers.{le16, le32}
use yuri.Network.Crypt.{tk_crypt_static}
use yuri.Network.Frame.{frame, read_framed_packet}
use yuri.Login.Text.{text_of, every, is_alphanumeric}
use yuri.Login.Packet.{padded}
use yuri.Login.Client.{LoginState}
use yuri.Login.Interserver.{
  routed, response_round, redirect_body, send_auth_success, dispatch_char_response,
}
use yuri.Login.Sealed.{sealed, sealed_frame}
use yuri.Chars.Logins.{CharState, CharInfo, MapFifo, to_login, to_map, response, map_msg, admit}
use yuri.Login.Packet.{length-padded}
use yuri.Chars.Delivered.{field_text}
use yuri.Login.Redirect.{
  ok_body, send_auth_success-sealed, small_body, read_redirect, read_redirect_lem,
}

routed_answer :
    (a b c : ℕ) (t rest : List ℕ)
    → length t ≡ 22
    → response_round ((0x03 ∷ 0x20 ∷ a ∷ b ∷ c ∷ t) ++ rest)
      ≡ routed (a + b * 2 ^ 8) (0x03 ∷ 0x20 ∷ a ∷ b ∷ c ∷ t) rest
unfolding response_round
routed_answer a b c t rest h =
    let enough : ltb (suc (suc (suc (length (t ++ rest))))) 25 ≡ false =
      ground (arith, h, length-append t rest) in
    rw (response_round, take-append_self 22 t rest h, drop-append_self 22 t rest h) (rw enough refl)

dispatched_answer :
    (state : LoginState) (pkt : List ℕ)
    → get_or pkt 0 0 ≡ 0x03
    → get_or pkt 1 0 ≡ 0x20
    → get_or pkt 4 0 ≡ 0
    → length pkt ≡ 27
    → dispatch_char_response state pkt ≡ send_auth_success state.config.xor_key pkt
unfolding dispatch_char_response
dispatched_answer state pkt e0 e1 e4 len = rw (dispatch_char_response, e0, e1, e4, len) refl

-- The answer to a login that is admitted.
module _ (pkt name' : List ℕ) (s : MapFifo) (fits : length name' ≤ 16)
    (plain : every is_alphanumeric name' ≡ true) where
  answer : List ℕ
  answer = response 0x03 pkt ++ (0x00 ∷ (padded 16 name' ++ (le32 s.ip ++ le16 s.port)))

  answer_name : text_of (take 16 (drop 5 answer)) ≡ name'
  unfolding answer
  answer_name =
      ap text_of
        (take-append_self 16 (padded 16 name') (le32 s.ip ++ le16 s.port) (length-padded 16 name'))
      ∙ field_text 16 name' plain fits

  answer_tail : drop 21 answer ≡ le32 s.ip ++ le16 s.port
  unfolding answer
  answer_tail =
      drop-append_self 16 (padded 16 name') (le32 s.ip ++ le16 s.port) (length-padded 16 name')

  answer_byte : (i : ℕ) → get_or answer (21 + i) 0 ≡ get_or (le32 s.ip ++ le16 s.port) i 0
  answer_byte i = sym (get_or-drop 21 answer i 0) ∙ ap (λ t. get_or t i 0) answer_tail

  length-answer : length answer ≡ 27
  unfolding answer
  length-answer =
      omega
        (arith, length-append (padded 16 name') (le32 s.ip ++ le16 s.port), length-padded 16 name')

  answer_bytes :
      s.ip < 2 ^ 32
      → s.port < 2 ^ 16
      → (get_or answer 24 0 * 2 ^ 24
            + get_or answer 23 0 * 2 ^ 16
            + get_or answer 22 0 * 2 ^ 8
            + get_or answer 21 0
          ≡ s.ip)
        × ((get_or answer 25 0 + get_or answer 26 0 * 2 ^ 8) % 2 ^ 16 ≡ s.port)
  answer_bytes small_ip small_port =
      rw (answer_byte 0, answer_byte 1, answer_byte 2, answer_byte 3, answer_byte 4, answer_byte 5)
        (omega (arith, small_ip), omega (arith, small_port))

  answer_routed :
      (rest : List ℕ)
      → response_round (answer ++ rest)
        ≡ routed (get_or pkt 2 0 + get_or pkt 3 0 * 2 ^ 8) answer rest
  unfolding response_round answer
  answer_routed rest =
      routed_answer (get_or pkt 2 0) (get_or pkt 3 0) 0
        (padded 16 name' ++ (le32 s.ip ++ le16 s.port)) rest
        (omega (
          arith,
          length-append (padded 16 name') (le32 s.ip ++ le16 s.port),
          length-padded 16 name',
        ))

  answer_dispatched :
      (state : LoginState)
      → dispatch_char_response state answer ≡ send_auth_success state.config.xor_key answer
  answer_dispatched state =
      dispatched_answer state answer (unfold answer in refl) (unfold answer in refl)
        (unfold answer in refl) length-answer

-- The answer that names a player and a map server.
abbrev pub confirmation : List ℕ → List ℕ → ℕ → ℕ → List ℕ
confirmation pkt name ip port =
    response 0x03 pkt ++ (0x00 ∷ (padded 16 name ++ (le32 ip ++ le16 port)))

-- What the client of the asking session makes of it.
pub record Redirected (state : LoginState) (pkt name rest more r : List ℕ) (ip port : ℕ)
    : Type 0 where
  pub ok : List ℕ
  pub redirected : List ℕ
  pub to_session :
      response_round (r ++ rest) ≡ routed (get_or pkt 2 0 + get_or pkt 3 0 * 2 ^ 8) r rest
  pub answered : dispatch_char_response state r ≡ some (ok ∷ redirected ∷ [])
  pub first_whole : read_framed_packet (ok ++ (redirected ++ more)) ≡ frame ok (redirected ++ more)
  pub second_whole : read_framed_packet (redirected ++ more) ≡ frame redirected more
  pub reads :
      read_redirect state.config.xor_key redirected
      ≡ (ip, port, name, get_or pkt 2 0 + get_or pkt 3 0 * 2 ^ 8)

pub confirmation-Redirected :
    (state : LoginState) (pkt name rest more : List ℕ) (s : MapFifo)
    → length name ≤ 16
    → every is_alphanumeric name ≡ true
    → s.ip < 2 ^ 32
    → s.port < 2 ^ 16
    → get_or pkt 2 0 + get_or pkt 3 0 * 2 ^ 8 < 2 ^ 16
    → Redirected state pkt name rest more (confirmation pkt name s.ip s.port) s.ip s.port
unfolding answer
confirmation-Redirected state pkt name rest more s fits plain small_ip small_port session =
    let key = state.config.xor_key in
    let r = answer pkt name s fits plain in
    let second = tk_crypt_static (sealed (redirect_body key r)) key in
    let bytes = answer_bytes pkt name s fits plain small_ip small_port in
    let asked : (get_or r 2 0 + get_or r 3 0 * 2 ^ 8) % 2 ^ 32
        ≡ get_or pkt 2 0 + get_or pkt 3 0 * 2 ^ 8 =
      omega (arith, session) in
    record {
      ok = tk_crypt_static (sealed ok_body) key;
      redirected = second;
      to_session = answer_routed pkt name s fits plain rest;
      answered = answer_dispatched pkt name s fits plain state ∙ send_auth_success-sealed key r;
      first_whole = sealed_frame ok_body key (second ++ more) (omega arith);
      second_whole = sealed_frame (redirect_body key r) key more (small_body key r);
      reads =
          read_redirect_lem key r
          ∙ rw (bytes.0, bytes.1, answer_name pkt name s fits plain, asked) refl;
    }

-- The answer to a login that is admitted goes to the client of the session that asked; the client gets
-- two packets, each a whole frame, and reads from the second the address and the port of the map server,
-- the player's name and the session. The name is of at most 16 letters and digits, the address, the port
-- and the session fit their fields.
pub admit-Redirected :
    (state : LoginState) (chars : CharState) (pkt name rest more : List ℕ) (info : CharInfo)
    (idx : ℕ) (s : MapFifo)
    → length name ≤ 16
    → every is_alphanumeric name ≡ true
    → s.ip < 2 ^ 32
    → s.port < 2 ^ 16
    → get_or pkt 2 0 + get_or pkt 3 0 * 2 ^ 8 < 2 ^ 16
    → (r : List ℕ) × ((admit chars pkt name info idx s).1
        ≡ to_map idx (map_msg pkt name info) ∷ to_login r ∷ [])
      × Redirected state pkt name rest more r s.ip s.port
unfolding admit
admit-Redirected state chars pkt name rest more info idx s fits plain small_ip small_port session =
    (
      confirmation pkt name s.ip s.port,
      refl,
      confirmation-Redirected state pkt name rest more s fits plain small_ip small_port session,
    )
