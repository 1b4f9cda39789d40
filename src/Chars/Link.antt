-- ===== src/Chars/Link.antt =====
-- The link of src/servers/char/login.rs: the handshake that the character server sends, and the loop
-- that cuts what the login server sends into packets. The stream is the list of the bytes that still
-- arrive.
use yuri.Base.{
  ℕ, zero, suc, ◌+◌, ◌-◌, ◌*◌, ◌^◌, List, [], ◌∷◌, ◌++◌, if◌then◌else◌, ltb, ◌==◌, length, take,
  drop, get_or,
}
use yuri.Config.{ServerConfig}
use yuri.Network.Crypt.{tk_crypt_static}
use yuri.Login.Packet.{padded}

unfoldable pub handshake : ServerConfig → List ℕ
handshake config =
    tk_crypt_static
      ((0xAA ∷ 0x00 ∷ 0x42 ∷ 0xFF ∷ 0x00 ∷ [])
        ++ (padded 32 config.login_id ++ padded 32 config.login_pw))
      config.xor_key

-- The lengths of the commands 0x1000 to 0x1006.
abbrev pub pkt_lens : List ℕ
pkt_lens = 3 ∷ 20 ∷ 43 ∷ 40 ∷ 52 ∷ 0 ∷ 0 ∷ []

-- A round of the loop: the connection is over, a framed packet is skipped, or a packet is there.
pub data Round : Type 0 where
  over : Round
  skipped : (rest : List ℕ) → Round
  received : (pkt rest : List ℕ) → Round

-- The rest of a framed packet, whose length has its high byte first, is read and dropped.
unfoldable pub skip_frame : ℕ → List ℕ → Round
skip_frame hi [] = over
skip_frame hi (lo ∷ stream) =
    let n = hi * 2 ^ 8 + lo in if ltb (length stream) n then over else skipped (drop n stream)

-- The length of a command's packet; 0 for a command that is not in the table.
unfoldable pub expected_len : ℕ → ℕ
expected_len cmd = if ltb cmd 0x1000 then 0 else get_or pkt_lens (cmd - 0x1000) 0

unfoldable pub link_round : List ℕ → Round
unfolding expected_len skip_frame
link_round [] = over
link_round (b0 ∷ []) = over
link_round (b0 ∷ b1 ∷ stream) =
    if b0 == 0xAA
    then skip_frame b1 stream
    else let n = expected_len (b0 + b1 * 2 ^ 8) in
      if n == 0
      then over
      else if ltb (length stream) (n - 2)
      then over
      else received (b0 ∷ b1 ∷ take (n - 2) stream) (drop (n - 2) stream)

-- The packets that are dispatched before the connection is over.
unfoldable pub link_loop : ℕ → List ℕ → List (List ℕ)
unfolding link_round
link_loop zero stream = []
link_loop (suc fuel) stream = elim (link_round stream) [
  | over ↦ []
  | skipped rest ↦ link_loop fuel rest
  | received pkt rest ↦ pkt ∷ link_loop fuel rest
]
