-- ===== src/Login/Redirect.antt =====
-- The redirect of src/servers/login/interserver.rs, and what a client makes of it.
use mathlib.Core.List.{append_assoc}
use yuri.Base.{
  ℕ, ◌+◌, ◌*◌, ◌/◌, ◌%◌, ◌^◌, ◌≤◌, ◌<◌, ◌≡◌, refl, sym, ap, ◌∙◌, List, [], ◌∷◌, ◌++◌, some, arith,
  length, take, drop, get_or, drop-drop, u8, length-append, length-take, take-append_self,
  drop-append_self,
}
use yuri.Base.Buffers.{be32}
use yuri.Network.Crypt.{tk_crypt_static}
use yuri.Login.Text.{text_of, length-text_of}
use yuri.Login.Packet.{padded}
use yuri.Login.Interserver.{session_ok, redirect_body, redirect, send_auth_success}
use yuri.Login.Sealed.{sealed, set_packet_indexes-sealed, sealed_opened}
use yuri.Login.Packet.{length-padded}

abbrev pub ok_body : List ℕ
ok_body = 0x02 ∷ 0x17 ∷ 0x00 ∷ 0x00 ∷ 0x00 ∷ []

session_ok-sealed :
    (xor_key : List ℕ) → session_ok xor_key ≡ some (tk_crypt_static (sealed ok_body) xor_key)
unfolding session_ok
session_ok-sealed xor_key =
    rw (set_packet_indexes-sealed ok_body 5 (omega arith) (omega arith)) refl

-- The name, its length and the session, behind the key.
abbrev named : List ℕ → List ℕ → List ℕ
named name pkt = u8 (length name) ∷ (name ++ be32 (get_or pkt 2 0 + get_or pkt 3 0 * 2 ^ 8))

length-redirect_body :
    (xor_key pkt : List ℕ)
    → length (redirect_body xor_key pkt) ≡ length (text_of (take 16 (drop 5 pkt))) + 24
unfolding redirect_body
length-redirect_body xor_key pkt =
    let name = text_of (take 16 (drop 5 pkt)) in
    let s = be32 (get_or pkt 2 0 + get_or pkt 3 0 * 2 ^ 8) in
    omega (
      arith,
      length-padded 9 xor_key,
      length-append (padded 9 xor_key) (named name pkt),
      length-append name s,
    )

short_text : (pkt : List ℕ) → length (text_of (take 16 (drop 5 pkt))) ≤ 16
short_text pkt = omega (arith, length-text_of (take 16 (drop 5 pkt)), length-take 16 (drop 5 pkt))

pub small_body : (xor_key pkt : List ℕ) → length (redirect_body xor_key pkt) + 3 < 2 ^ 16
small_body xor_key pkt = omega (arith, length-redirect_body xor_key pkt, short_text pkt)

redirect-sealed :
    (xor_key pkt : List ℕ)
    → redirect xor_key pkt ≡ some (tk_crypt_static (sealed (redirect_body xor_key pkt)) xor_key)
unfolding redirect
redirect-sealed xor_key pkt =
    rw
      (set_packet_indexes-sealed (redirect_body xor_key pkt)
        (length (text_of (take 16 (drop 5 pkt))) + 24) (sym (length-redirect_body xor_key pkt))
        (omega (arith, length-redirect_body xor_key pkt, small_body xor_key pkt)))
      refl

pub send_auth_success-sealed :
    (xor_key pkt : List ℕ)
    → send_auth_success xor_key pkt
      ≡ some (
          tk_crypt_static (sealed ok_body) xor_key
          ∷ tk_crypt_static (sealed (redirect_body xor_key pkt)) xor_key
          ∷ [])
unfolding send_auth_success
send_auth_success-sealed xor_key pkt =
    rw (session_ok-sealed xor_key, redirect-sealed xor_key pkt) refl

-- What a client makes of a redirect: the address, the port, the name and the session.
pub read_redirect : List ℕ → List ℕ → ℕ × ℕ × List ℕ × ℕ
read_redirect xor_key pkt =
    let plain = tk_crypt_static pkt xor_key in
    let tail = drop 22 plain in
    let after = drop (get_or tail 0 0) (drop 1 tail) in
    (
      get_or plain 4 0 * 2 ^ 24
          + get_or plain 5 0 * 2 ^ 16
          + get_or plain 6 0 * 2 ^ 8
          + get_or plain 7 0,
      get_or plain 8 0 * 2 ^ 8 + get_or plain 9 0,
      take (get_or tail 0 0) (drop 1 tail),
      get_or after 0 0 * 2 ^ 24
          + get_or after 1 0 * 2 ^ 16
          + get_or after 2 0 * 2 ^ 8
          + get_or after 3 0,
    )

behind_key : (xor_key X t : List ℕ) → drop 9 ((padded 9 xor_key ++ X) ++ t) ≡ X ++ t
behind_key xor_key X t =
    ap (drop 9) (append_assoc (padded 9 xor_key) X t)
    ∙ drop-append_self 9 (padded 9 xor_key) (X ++ t) (length-padded 9 xor_key)

be16_value : (n : ℕ) → n / 2 ^ 8 % 2 ^ 8 * 2 ^ 8 + n % 2 ^ 8 ≡ n % 2 ^ 16
be16_value n = omega arith

be32_value :
    (n : ℕ)
    → n / 2 ^ 24 % 2 ^ 8 * 2 ^ 24
        + n / 2 ^ 16 % 2 ^ 8 * 2 ^ 16
        + n / 2 ^ 8 % 2 ^ 8 * 2 ^ 8
        + n % 2 ^ 8
      ≡ n % 2 ^ 32
be32_value n = omega arith

module _ (xor_key pkt : List ℕ) where
  abbrev name : List ℕ
  name = text_of (take 16 (drop 5 pkt))

  abbrev session : ℕ
  session = get_or pkt 2 0 + get_or pkt 3 0 * 2 ^ 8

  abbrev port : ℕ
  port = get_or pkt 25 0 + get_or pkt 26 0 * 2 ^ 8

  abbrev trailer : List ℕ
  trailer = 0x13 ∷ 0x03 ∷ 0x60 ∷ []

  tail_lem :
      drop 22 (sealed (redirect_body xor_key pkt))
      ≡ u8 (length name) ∷ ((name ++ be32 session) ++ trailer)
  unfolding redirect_body
  tail_lem =
      sym (drop-drop 13 9 (sealed (redirect_body xor_key pkt)))
      ∙ behind_key xor_key (named name pkt) trailer

  name_len : u8 (length name) ≡ length name
  name_len = omega (arith, short_text pkt)

  pub read_redirect_lem :
      read_redirect xor_key (tk_crypt_static (sealed (redirect_body xor_key pkt)) xor_key) ≡ (
        get_or pkt 24 0 * 2 ^ 24
            + get_or pkt 23 0 * 2 ^ 16
            + get_or pkt 22 0 * 2 ^ 8
            + get_or pkt 21 0,
        port % 2 ^ 16,
        name,
        session % 2 ^ 32,
      )
  unfolding read_redirect
  read_redirect_lem =
      rw (sealed_opened (redirect_body xor_key pkt) xor_key, tail_lem)
        (rw
          (
            name_len,
            append_assoc name (be32 session) trailer,
            take-append_self (length name) name (be32 session ++ trailer) refl,
            drop-append_self (length name) name (be32 session ++ trailer) refl,
          )
          (unfold redirect_body in rw (sym (be16_value port), sym (be32_value session)) refl))
