-- ===== src/Login/Client.antt =====
-- src/servers/login/client.rs: what the login server does with a deciphered packet of a client. The
-- database and the clock are parameters. Waiting for the character server stands in its own module.
use yuri.Base.{
  ℕ, ◌+◌, ◌-◌, ◌*◌, ◌%◌, ◌^◌, Bool, true, not, ◌&&◌, ◌||◌, List, [], ◌∷◌, ◌++◌, ◌≡◌, refl, Option,
  none, some, if◌then◌else◌, ltb, leb, ◌==◌, min, length, get_elem?,
}
use yuri.Base.Int.{ℤ, pos, negsuc}
use yuri.Base.Buffers.{◌>>=◌, slice, le16}
use yuri.Config.{ServerConfig, Text, is_empty}
use yuri.Network.Crypt.{tk_crypt_static}
use yuri.Login.Text.{text_of, is_valid_name, is_valid_password}
use yuri.Login.Packet.{padded, build_message, build_version_ok, build_version_patch}

-- The numbers of the localised messages.
pub data Lgn : Type 0 where
  errserver wrongpass wronguser errdb userexist errpass erruser newchar chgpass dbllogin banned :
      Lgn

pub record SessionData : Type 0 where
  pub name : Text
  pub pass : Text
  pub face : ℕ
  pub sex : ℕ
  pub country : ℕ
  pub totem : ℕ
  pub hair : ℕ
  pub hair_color : ℕ
  pub face_color : ℕ

-- The queries of a login, where there is a database.
pub record LoginDb : Type 0 where
  pub get_maintenance_mode : Bool
  pub get_char_gm_level : Text → ℕ
  pub get_account_for_char : Text → ℕ

-- The part of `LoginState` that the handlers read.
pub record LoginState : Type 0 where
  pub db : Option LoginDb
  pub config : ServerConfig
  pub messages : Lgn → Text

-- What a handler does: nothing, one packet for the client, or a request to the character server.
pub data Action : Type 0 where
  ignored : Action
  replied : List ℕ → Action
  forwarded : List ℕ → Action

-- A handler's result, where it does not panic.
abbrev pub Handled : Type 0
Handled = Option (Action × SessionData)

-- `write_all(&build_message(..))`, then `return`.
unfoldable pub refuse : LoginState → SessionData → ℕ → Text → Handled
refuse state sd code text = do
  pkt ← build_message code text state.config.xor_key
  some (replied pkt, sd)

-- `&pkt[lo..hi]` as a text.
unfoldable pub read_text : List ℕ → ℕ → ℕ → Option Text
unfolding slice
read_text pkt lo hi = do bytes ← slice pkt lo hi; some (text_of bytes)

-- The head of a request: the command, and the session with its low byte first.
abbrev pub request : ℕ → ℕ → List ℕ
request command session_id = command ∷ 0x10 ∷ le16 session_id

-- `as u16` of an i32.
unfoldable pub version_u16 : ℤ → ℕ
version_u16 (pos n) = n % 2 ^ 16
version_u16 (negsuc n) = 2 ^ 16 - 1 - n % 2 ^ 16

-- `http://www.google.com`
abbrev pub patch_url : Text
patch_url =
    b'h' ∷ b't' ∷ b't' ∷ b'p' ∷ b':' ∷ b'/' ∷ b'/' ∷ b'w' ∷ b'w' ∷ b'w' ∷ b'.' ∷ b'g' ∷ b'o' ∷ b'o'
    ∷ b'g' ∷ b'l' ∷ b'e' ∷ b'.' ∷ b'c' ∷ b'o' ∷ b'm' ∷ []

unfoldable pub dispatch_version_check : LoginState → SessionData → List ℕ → Handled
dispatch_version_check state sd pkt =
    let plain = tk_crypt_static pkt state.config.xor_key in
    if ltb (length pkt) 9 then some (ignored, sd) else do
      v0 ← get_elem? plain 4
      v1 ← get_elem? plain 5
      _d0 ← get_elem? plain 7
      _d1 ← get_elem? plain 8
      let nex = version_u16 state.config.version
      some (
        replied (
            if v0 * 2 ^ 8 + v1 == nex
            then build_version_ok state.config.xor_key
            else build_version_patch nex patch_url),
        sd,
      )

-- A check that the packet holds a name and a password, both valid: they are handed on.
unfoldable pub with_credentials :
    LoginState → SessionData → List ℕ → (Text → Text → Handled) → Handled
unfolding read_text refuse
with_credentials state sd pkt next = if ltb (length pkt) 6 then some (ignored, sd) else do
  name_len ← get_elem? pkt 5
  if ltb (length pkt) (6 + name_len + 1) then some (ignored, sd) else do
    name ← read_text pkt 6 (6 + name_len)
    if not (is_valid_name name) then refuse state sd 0x03 (state.messages erruser) else do
      pass_len ← get_elem? pkt (6 + name_len)
      if ltb (length pkt) (7 + name_len + pass_len) then some (ignored, sd) else do
        pass ← read_text pkt (7 + name_len) (7 + name_len + pass_len)
        if not (is_valid_password pass)
            then refuse state sd 0x05 (state.messages errpass)
            else next name pass

-- What follows the checks of `dispatch_register`.
unfoldable pub register_next : SessionData → ℕ → Text → Text → Handled
register_next sd session_id name pass =
    some (
      forwarded (request 0x01 session_id ++ padded 16 name),
      record sd { name = name; pass = pass },
    )

unfoldable pub dispatch_register : LoginState → SessionData → ℕ → List ℕ → Handled
unfolding with_credentials register_next
dispatch_register state sd session_id pkt =
    with_credentials state sd pkt (register_next sd session_id)

-- `require_reg != 0`.
unfoldable pub requires_reg : ℤ → Bool
requires_reg (pos n) = not (n == 0)
requires_reg (negsuc n) = true

-- The texts of the two refusals of a login are fixed: `maintenance_text` and `unregistered_text`.
module _ (maintenance_text unregistered_text : Text) where
  -- Maintenance keeps everyone out but game masters; then `require_reg` asks for an account.
  unfoldable pub login_barred : LoginState → Text → Option Text
  login_barred state name = elim state.db [
    | none ↦ none
    | some db ↦
        if db.get_maintenance_mode && db.get_char_gm_level name == 0
        then some maintenance_text
        else if requires_reg state.config.require_reg && db.get_account_for_char name == 0
        then some unregistered_text
        else none
  ]

  -- What follows the checks of `dispatch_login`. `peer` is the client's address: four bytes.
  unfoldable pub login_next : LoginState → SessionData → ℕ → List ℕ → Text → Text → Handled
  unfolding login_barred refuse
  login_next state sd session_id peer name pass = elim (login_barred state name) [
    | some text ↦ refuse state sd 0x03 text
    | none ↦ some (
      forwarded (request 0x03 session_id ++ (padded 16 name ++ (padded 16 pass ++ padded 4 peer))),
      record sd { name = name; pass = pass },
    )
  ]

  module _ (state : LoginState) (sd : SessionData) (session_id : ℕ) (peer : List ℕ)
      (name pass : Text) where
    pub login_next-free :
        login_barred state name ≡ none
        → login_next state sd session_id peer name pass
          ≡ some (
            forwarded
                (request 0x03 session_id ++ (padded 16 name ++ (padded 16 pass ++ padded 4 peer))),
            record sd { name = name; pass = pass },
          )
    unfolding login_next
    login_next-free free = rw (login_next, free) refl

    pub login_next-barred :
        (text : Text)
        → login_barred state name ≡ some text
        → login_next state sd session_id peer name pass ≡ refuse state sd 0x03 text
    unfolding login_next
    login_next-barred text barred = rw (login_next, barred) refl

  unfoldable pub dispatch_login : LoginState → SessionData → ℕ → List ℕ → List ℕ → Handled
  unfolding with_credentials login_next
  dispatch_login state sd session_id peer pkt =
      with_credentials state sd pkt (login_next state sd session_id peer)

-- `nanos` is the clock's fraction of a second.
unfoldable pub dispatch_create_char : SessionData → ℕ → ℕ → List ℕ → Handled
dispatch_create_char sd session_id nanos pkt =
    if is_empty sd.name || is_empty sd.pass
    then some (ignored, sd)
    else if ltb (length pkt) 13
    then some (ignored, sd)
    else do
      face ← get_elem? pkt 6
      hair ← get_elem? pkt 7
      face_color ← get_elem? pkt 8
      hair_color ← get_elem? pkt 9
      sex ← get_elem? pkt 10
      totem ← get_elem? pkt 12
      let country = nanos % 2
      some (
        forwarded (
            request 0x02 session_id
            ++ (padded 16 sd.name
                ++ (padded 16 sd.pass
                    ++ (face ∷ sex ∷ country ∷ totem ∷ hair ∷ hair_color ∷ face_color ∷ [])))),
        record sd {
          face = face;
          hair = hair;
          face_color = face_color;
          hair_color = hair_color;
          sex = sex;
          totem = totem;
          country = country;
        },
      )

unfoldable pub dispatch_change_pass : LoginState → SessionData → ℕ → List ℕ → Handled
unfolding read_text refuse slice
dispatch_change_pass state sd session_id pkt = if ltb (length pkt) 6 then some (ignored, sd) else do
  name_len ← get_elem? pkt 5
  let old_off = 6 + name_len
  if ltb 16 name_len || leb (length pkt) old_off then some (ignored, sd) else do
    old_pass_len ← get_elem? pkt old_off
    let new_off = old_off + 1 + old_pass_len
    if ltb 16 old_pass_len || leb (length pkt) new_off then some (ignored, sd) else do
      new_pass_len ← get_elem? pkt new_off
      if ltb 8 new_pass_len || ltb new_pass_len 3 then some (ignored, sd) else do
        name ← read_text pkt 6 (6 + name_len)
        if not (is_valid_name name) then refuse state sd 0x03 (state.messages erruser) else do
          name_bytes ← slice pkt 6 (6 + min name_len 16)
          old_pass ← slice pkt (old_off + 1) (old_off + 1 + min old_pass_len 16)
          new_pass ← slice pkt (new_off + 1) (new_off + 1 + min new_pass_len 16)
          some (
            forwarded (
                request 0x04 session_id
                ++ (padded 16 name_bytes ++ (padded 16 old_pass ++ padded 16 new_pass))),
            record sd { name = name },
          )

abbrev pub heartbeat : List ℕ
heartbeat = 0xAA ∷ 0x00 ∷ 0x07 ∷ 0x60 ∷ 0x00 ∷ 0x55 ∷ 0xE0 ∷ 0xD8 ∷ 0xA2 ∷ 0xA0 ∷ []
