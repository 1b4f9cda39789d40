-- ===== src/MapServer.antt =====
-- src/servers/map/packet.rs: the packets that the map server gets from the character server. The
-- repair of text that is not well-formed is the standard library's, and a parameter, as are the ids of
-- the loaded maps. Handing a character on to the C code is left out.
use yuri.Base.{
  ℕ, ◌+◌, ◌*◌, ◌/◌, ◌%◌, ◌^◌, not, List, [], ◌∷◌, ◌++◌, Option, none, some, if◌then◌else◌, ltb,
  ◌==◌, length, take, drop, get_or, u16,
}
use yuri.Base.Buffers.{le16, le32}
use yuri.Config.{Text, same_text}
use yuri.Login.Packet.{padded}

pub record AuthEntry : Type 0 where
  pub char_name : Text
  pub account_id : ℕ
  pub client_ip : ℕ
  pub expires : ℕ

abbrev pub AuthDb : Type 0
AuthDb = List (Text × AuthEntry)

abbrev pub find_auth : Text → AuthDb → Option AuthEntry
find_auth k [] = none
find_auth k ((key, entry) ∷ rest) = if same_text key k then some entry else find_auth k rest

abbrev pub insert_auth : Text → AuthEntry → AuthDb → AuthDb
insert_auth k entry [] = (k, entry) ∷ []
insert_auth k entry ((key, old) ∷ rest) =
    if same_text key k then (key, entry) ∷ rest else (key, old) ∷ insert_auth k entry rest

-- What stands before the first zero.
abbrev pub before_nul : List ℕ → List ℕ
before_nul [] = []
before_nul (b ∷ bs) = let rest = before_nul bs in if b == 0 then [] else b ∷ rest

-- The ids of the maps, the low byte first.
abbrev pub le16s : List ℕ → List ℕ
le16s [] = []
le16s (id ∷ ids) = id % 2 ^ 8 ∷ id / 2 ^ 8 % 2 ^ 8 ∷ le16s ids

-- The list of the maps, for a server that was accepted; `none` where nothing is sent.
unfoldable pub handle_accept : List ℕ → List ℕ → Option (List ℕ)
handle_accept map_ids pkt =
    let map_count = u16 (length map_ids) in
    if ltb (length pkt) 4
    then none
    else if not (get_or pkt 2 0 == 0)
    then none
    else some
        ((0x01 ∷ 0x30 ∷ []) ++ (le32 (8 + map_count * 2) ++ (le16 map_count ++ le16s map_ids)))

-- `from_utf8_lossy`.
module _ (lossy : List ℕ → Text) where
  -- The end of the range is cut to the end of the packet.
  unfoldable pub read_str : List ℕ → ℕ → ℕ → Text
  read_str src offset len = lossy (before_nul (take len (drop offset src)))

  abbrev pub auth_entry : ℕ → List ℕ → AuthEntry
  unfolding read_str
  auth_entry now pkt = record {
    char_name = read_str pkt 8 16;
    account_id =
        get_or pkt 4 0 + get_or pkt 5 0 * 2 ^ 8 + get_or pkt 6 0 * 2 ^ 16 + get_or pkt 7 0 * 2 ^ 24;
    client_ip =
        get_or pkt 34 0
        + get_or pkt 35 0 * 2 ^ 8
        + get_or pkt 36 0 * 2 ^ 16
        + get_or pkt 37 0 * 2 ^ 24;
    expires = now + 30;
  }

  -- The acknowledgement, and the player with 30 seconds to come.
  unfoldable pub handle_authadd : ℕ → AuthDb → List ℕ → AuthDb × List (List ℕ)
  unfolding read_str
  handle_authadd now auth pkt =
      let char_name = read_str pkt 8 16 in
      if ltb (length pkt) 38 then (auth, []) else (
        insert_auth char_name (auth_entry now pkt) auth,
        ((0x02 ∷ 0x30 ∷ get_or pkt 2 0 ∷ get_or pkt 3 0 ∷ []) ++ padded 16 char_name) ∷ [],
      )

-- Times are in seconds.
unfoldable pub expire_auth : ℕ → AuthDb → AuthDb
expire_auth now [] = []
expire_auth now ((key, entry) ∷ rest) =
    let kept = expire_auth now rest in if ltb now entry.expires then (key, entry) ∷ kept else kept
