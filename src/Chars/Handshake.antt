-- ===== src/Chars/Handshake.antt =====
-- The handshake of the character server at the login server.
use yuri.Base.{
  ℕ, ◌≤◌, ◌<◌, ◌≡◌, refl, sym, ap, ◌∙◌, Bool, true, false, not, ◌&&◌, ◌||◌, List, [], ◌∷◌, ◌++◌,
  arith, some, if◌then◌else◌, ltb, leb, length, take, drop, get_or, length-append, take-append_self,
  drop-append_self, take-all,
}
use yuri.Config.{ServerConfig, same_text}
use yuri.Network.Crypt.{tk_crypt_static, tk_crypt_dynamic}
use yuri.Network.Cipher.{tk_crypt_dynamic_twice, tk_crypt_dynamic-Keeps}
use yuri.Network.Frame.{frame, read_framed_packet}
use yuri.Login.Text.{text_of, every, is_alphanumeric}
use yuri.Login.Packet.{padded, build_intif_auth_response, read_client_packet}
use yuri.Login.Message.{framed_packet}
use yuri.Login.Accept.{charserver, first_packet, failures, handle_new_connection}
use yuri.Login.Interserver.{promote_to_charserver}
use yuri.Chars.Link.{handshake}
use yuri.Login.Packet.{length-padded}
use yuri.Chars.Delivered.{field_text}

module _ (config : ServerConfig) where
  abbrev fields : List ℕ
  fields = padded 32 config.login_id ++ padded 32 config.login_pw

  abbrev greeting : List ℕ
  greeting = 0xAA ∷ 0x00 ∷ 0x42 ∷ 0xFF ∷ 0x00 ∷ fields

  length-fields : length fields ≡ 64
  length-fields = omega (
    arith,
    length-append (padded 32 config.login_id) (padded 32 config.login_pw),
    length-padded 32 config.login_id,
    length-padded 32 config.login_pw,
  )

  handshake_opened : tk_crypt_static (handshake config) config.xor_key ≡ greeting
  unfolding handshake tk_crypt_static
  handshake_opened = tk_crypt_dynamic_twice greeting config.xor_key

  length-handshake : length (handshake config) ≡ 69
  unfolding handshake tk_crypt_static
  length-handshake =
      omega (arith, (tk_crypt_dynamic-Keeps greeting config.xor_key).2, length-fields)

  handshake_framed :
      (rest : List ℕ)
      → read_framed_packet (handshake config ++ rest) ≡ frame (handshake config) rest
  unfolding handshake tk_crypt_static
  handshake_framed rest =
      let k = tk_crypt_dynamic-Keeps greeting config.xor_key in
      framed_packet (tk_crypt_dynamic greeting config.xor_key) 0x00 0x42 (0xFF ∷ 0x00 ∷ fields) rest
        (omega (arith, length-fields)) k.0 k.2

  id_field :
      every is_alphanumeric config.login_id ≡ true
      → length config.login_id ≤ 32
      → text_of (take 32 (drop 5 greeting)) ≡ config.login_id
  id_field plain fits =
      ap text_of (
        take-append_self 32 (padded 32 config.login_id) (padded 32 config.login_pw)
          (length-padded 32 config.login_id))
      ∙ field_text 32 config.login_id plain fits

  pw_field :
      every is_alphanumeric config.login_pw ≡ true
      → length config.login_pw ≤ 32
      → text_of (take 32 (drop 37 greeting)) ≡ config.login_pw
  pw_field plain fits =
      ap (λ t. text_of (take 32 t))
        (drop-append_self 32 (padded 32 config.login_id) (padded 32 config.login_pw)
          (length-padded 32 config.login_id))
      ∙ ap text_of (
          take-all 32 (padded 32 config.login_pw) (omega (arith, length-padded 32 config.login_pw)))
      ∙ field_text 32 config.login_pw plain fits

  handshake_marked : get_or (handshake config) 3 0 ≡ 0xFF
  unfolding handshake tk_crypt_static
  handshake_marked =
      fourth (tk_crypt_dynamic greeting config.xor_key)
        (tk_crypt_dynamic-Keeps greeting config.xor_key).0
    where
      fourth : (out : List ℕ) → take 5 out ≡ take 5 greeting → get_or out 3 0 ≡ 0xFF
      fourth [] h = cc
      fourth (a ∷ []) h = cc
      fourth (a ∷ b ∷ []) h = cc
      fourth (a ∷ b ∷ c ∷ []) h = cc
      fourth (a ∷ b ∷ c ∷ d ∷ out) h = cc

-- The login server takes the handshake off the stream whole and for that of a character server; it
-- accepts it if no other is connected and both have the same id and password, and only then. Both have
-- the same key, the id and the password are of letters and digits, at most 32 of each, and the address
-- is neither banned nor locked out.
pub handshake-promote_to_charserver :
    (login char : ServerConfig) (connected has_db : Bool) (lockout : List (ℕ × ℕ))
    (is_ip_banned : ℕ → Bool) (ip : ℕ) (rest : List ℕ)
    → char.xor_key ≡ login.xor_key
    → every is_alphanumeric char.login_id ≡ true
    → every is_alphanumeric char.login_pw ≡ true
    → length char.login_id ≤ 32
    → length char.login_pw ≤ 32
    → (has_db && is_ip_banned ip) ≡ false
    → failures ip lockout < 10
    → (handle_new_connection has_db lockout is_ip_banned (some ip) (handshake char ++ rest)
        ≡ charserver (handshake char) rest)
      × ((promote_to_charserver login connected (handshake char)).1 ≡ (
          not connected
          && (same_text char.login_id login.login_id && same_text char.login_pw login.login_pw)))
unfolding handle_new_connection promote_to_charserver
handshake-promote_to_charserver login char connected has_db lockout is_ip_banned ip rest key
      id_plain pw_plain id_fits pw_fits free few =
    let few' : leb 10 (failures ip lockout) ≡ false = ground (arith, few) in
    let not_short : ltb (length (handshake char)) 4 ≡ false =
      ground (arith, length-handshake char) in
    let long : ltb (length (handshake char)) 69 ≡ false = ground (arith, length-handshake char) in
    let opened : tk_crypt_static (handshake char) login.xor_key ≡ greeting char =
      ap (tk_crypt_static (handshake char)) (sym key) ∙ handshake_opened char in
    (
      rw (free, few')
          (rw (read_client_packet, handshake_framed char rest)
            (rw (first_packet, not_short, handshake_marked char) refl)),
      rw (promote_to_charserver, opened, long)
          (rw (id_field char id_plain id_fits, pw_field char pw_plain pw_fits)
            (accepts connected _ _)),
    )
  where
    answer : Bool → Bool → Bool → List ℕ × Bool
    answer c p q =
        if c
        then (build_intif_auth_response false, false)
        else if not p || not q
        then (build_intif_auth_response false, false)
        else (build_intif_auth_response true, true)

    accepts : (c p q : Bool) → (answer c p q).1 ≡ (not c && (p && q))
    accepts true p q = refl
    accepts false false q = refl
    accepts false true false = refl
    accepts false true true = refl
