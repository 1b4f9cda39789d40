-- ===== src/Login/Accept.antt =====
-- `handle_new_connection` of src/servers/login/mod.rs: who gets the banner, and who is taken for the
-- character server. The query of the bans is a parameter.
use yuri.Base.{
  ℕ, Bool, ◌&&◌, List, [], ◌∷◌, Option, none, some, if◌then◌else◌, ltb, leb, ◌==◌, length, get_or,
}
use yuri.Base.Map.{lookup}
use yuri.Network.Frame.{FrameResult, frame}
use yuri.Login.Packet.{read_client_packet}

abbrev pub banner : List ℕ
banner =
    0xAA ∷ 0x00 ∷ 0x13 ∷ 0x7E ∷ 0x1B ∷ b'C' ∷ b'O' ∷ b'N' ∷ b'N' ∷ b'E' ∷ b'C' ∷ b'T' ∷ b'E' ∷ b'D'
    ∷ b' ' ∷ b'S' ∷ b'E' ∷ b'R' ∷ b'V' ∷ b'E' ∷ b'R' ∷ 0x0A ∷ []

-- What becomes of a connection: closed with nothing sent, closed behind the banner, handed on with its
-- first packet and what the stream holds behind it.
pub data Role : Type 0 where
  rejected : Role
  dropped : Role
  charserver : (first rest : List ℕ) → Role
  client : (first rest : List ℕ) → Role

-- The failed attempts of an address.
abbrev pub failures : ℕ → List (ℕ × ℕ) → ℕ
failures ip lockout = elim (lookup ip lockout) [ none ↦ 0 | some n ↦ n ]

unfoldable pub first_packet : FrameResult → Role
first_packet (frame first rest) =
    if ltb (length first) 4
    then dropped
    else if get_or first 3 0 == 0xFF
    then charserver first rest
    else client first rest
first_packet other = dropped

-- `none` for an address that is not of IPv4.
unfoldable pub handle_new_connection : Bool → List (ℕ × ℕ) → (ℕ → Bool) → Option ℕ → List ℕ → Role
unfolding first_packet read_client_packet
handle_new_connection has_db lockout is_ip_banned none stream = rejected
handle_new_connection has_db lockout is_ip_banned (some ip) stream =
    if has_db && is_ip_banned ip
    then rejected
    else if leb 10 (failures ip lockout)
    then rejected
    else first_packet (read_client_packet stream)
