-- ===== src/Chars/Maps.antt =====
-- src/servers/char/map.rs: the map servers of the character server. The database and zlib are
-- parameters. The handlers of the boards and of the mail, which keep no state, are left out, as is the
-- mark in the database of who is online.
use yuri.Base.{
  ℕ, zero, suc, ◌+◌, ◌-◌, ◌*◌, ◌^◌, ◌%◌, Bool, not, ◌||◌, List, [], ◌∷◌, ◌++◌, Option, none, some,
  if◌then◌else◌, ltb, ◌==◌, length, take, drop, set, get_elem?, get_or, u32,
}
use yuri.Base.Int.{ℤ, pos, negsuc}
use yuri.Base.Map.{remove, retain}
use yuri.Base.Buffers.{le32}
use yuri.Config.{ServerConfig, Text, same_text}
use yuri.Login.Text.{text_of}
use yuri.Chars.Link.{Round, over, skipped, received}
use yuri.Chars.Logins.{field, CharState, MapFifo, LoginEntry, to_login, to_map, saves, Step}

-- 16 MiB.
abbrev pub max_pkt_len : ℕ
max_pkt_len = 16 * 1024 * 1024

-- The lengths of the commands 0x3000 to 0x3015; -1 stands for a length in the packet.
abbrev pub map_lens : List ℤ
map_lens =
    pos 72
    ∷ negsuc 0
    ∷ pos 20
    ∷ pos 24
    ∷ negsuc 0
    ∷ pos 6
    ∷ pos 255
    ∷ negsuc 0
    ∷ pos 28
    ∷ pos 38
    ∷ pos 34
    ∷ pos 4
    ∷ pos 4086
    ∷ pos 4124
    ∷ pos 20
    ∷ pos 4124
    ∷ pos 30
    ∷ pos 255
    ∷ pos 255
    ∷ pos 255
    ∷ pos 255
    ∷ pos 255
    ∷ []

abbrev pub u32_at : List ℕ → ℕ → ℕ
u32_at pkt i =
    get_or pkt i 0
    + get_or pkt (i + 1) 0 * 2 ^ 8
    + get_or pkt (i + 2) 0 * 2 ^ 16
    + get_or pkt (i + 3) 0 * 2 ^ 24

-- The rest of a packet of which `head` was read.
unfoldable pub finish : List ℕ → ℕ → List ℕ → Round
finish head n stream =
    if ltb (length stream) n then over else received (head ++ take n stream) (drop n stream)

-- A packet that says how long it is.
unfoldable pub variable_round : ℕ → ℕ → List ℕ → Round
unfolding finish
variable_round b0 b1 (l0 ∷ l1 ∷ l2 ∷ l3 ∷ stream) =
    let declared = l0 + l1 * 2 ^ 8 + l2 * 2 ^ 16 + l3 * 2 ^ 24 in
    if declared == 0 || ltb max_pkt_len declared
    then over
    else finish (b0 ∷ b1 ∷ l0 ∷ l1 ∷ l2 ∷ l3 ∷ []) (declared - 6) stream
variable_round b0 b1 stream = over

unfoldable pub table_len : ℕ → ℤ
table_len cmd = if ltb cmd 0x3000 then pos 0 else get_or map_lens (cmd - 0x3000) (pos 0)

-- A round of the loop that reads from a map server. A command that is not in the table is skipped.
unfoldable pub map_round : List ℕ → Round
unfolding variable_round table_len finish
map_round (b0 ∷ b1 ∷ stream) = elim (table_len (b0 + b1 * 2 ^ 8)) [
  | pos n ↦ if n == 0 then skipped stream else finish (b0 ∷ b1 ∷ []) (n - 2) stream
  | negsuc n ↦ variable_round b0 b1 stream
]
map_round stream = over

-- The first slot that is free; behind the last one if there is none.
unfoldable pub free_slot : List (Option MapFifo) → ℕ
free_slot [] = 0
free_slot (none ∷ servers) = 0
free_slot (some s ∷ servers) = suc (free_slot servers)

unfoldable pub occupy : List (Option MapFifo) → MapFifo → List (Option MapFifo)
occupy [] s = some s ∷ []
occupy (none ∷ servers) s = some s ∷ servers
occupy (some t ∷ servers) s = some t ∷ occupy servers s

-- The first packet of a map server: the reply, and the slot of a server that is accepted.
unfoldable pub handle_map_server : ServerConfig → CharState → List ℕ → CharState × List ℕ × Option ℕ
unfolding free_slot occupy
handle_map_server config state pkt =
    if not (same_text (field pkt 2 32) config.char_id)
      || not (same_text (field pkt 34 32) config.char_pw)
    then (state, 0x00 ∷ 0x38 ∷ 0x01 ∷ 0x00 ∷ [], none)
    else let idx = free_slot state.map_servers in
      (
        record state {
          map_servers = occupy state.map_servers (record {
            maps = [];
            ip = u32_at pkt 66;
            port = get_or pkt 70 0 + get_or pkt 71 0 * 2 ^ 8;
          });
        },
        0x00 ∷ 0x38 ∷ 0x00 ∷ idx % 2 ^ 8 ∷ [],
        some idx,
      )

-- The end of a connection: its slot is free, and then its players are offline. Between the two other
-- tasks run.
unfoldable pub release_slot : CharState → ℕ → CharState
release_slot state idx = record state { map_servers = set state.map_servers idx none }

abbrev pub stays : ℕ → LoginEntry → Bool
stays idx e = not (e.map_server_idx == idx)

unfoldable pub release_players : CharState → ℕ → CharState
release_players state idx = record state { online = retain (stays idx) state.online }

-- As many maps as announced, or as many as are there.
unfoldable pub read_maps : ℕ → List ℕ → List ℕ
read_maps zero bytes = []
read_maps (suc n) (lo ∷ hi ∷ bytes) = (lo + hi * 2 ^ 8) ∷ read_maps n bytes
read_maps (suc n) bytes = []

unfoldable pub handle_mapset : CharState → ℕ → List ℕ → Step
unfolding read_maps
handle_mapset state idx pkt =
    if ltb (length pkt) 8
    then (state, [])
    else let maps = read_maps (get_or pkt 6 0 + get_or pkt 7 0 * 2 ^ 8) (drop 8 pkt) in
      elim (get_elem? state.map_servers idx) [
        | some (some s) ↦ (
          record state {
            map_servers = set state.map_servers idx (some (record s { maps = maps }));
          },
          [],
        )
        | some none ↦ (state, [])
        | none ↦ (state, [])
      ]

unfoldable pub handle_map_login : CharState → List ℕ → Step
handle_map_login state pkt = if ltb (length pkt) 20 then (state, []) else (
  state,
  to_login (
        (0x03 ∷ 0x20 ∷ get_or pkt 2 0 ∷ get_or pkt 3 0 ∷ 0x00 ∷ [])
        ++ take 16 (drop 4 pkt)
        ++ (0 ∷ 0 ∷ 0 ∷ 0 ∷ 0 ∷ 0 ∷ []))
      ∷ [],
)

-- What the handlers use of the database and of zlib.
pub record Store : Type 0 where
  pub load_char_bytes : ℕ → Text → Option (List ℕ)
  pub compress : List ℕ → List ℕ
  pub decompress : List ℕ → Option (List ℕ)

unfoldable pub handle_request_char : Store → CharState → ℕ → List ℕ → Step
handle_request_char db state idx pkt =
    if ltb (length pkt) 8
    then (state, [])
    else elim (db.load_char_bytes (u32_at pkt 4) (text_of (drop 8 pkt))) [
      | none ↦ (state, [])
      | some bytes ↦
          let compressed = db.compress bytes in
          (
            state,
            to_map idx (
                  (0x03 ∷ 0x38 ∷ [])
                  ++ le32 (u32 (u32 (length compressed) + 8))
                  ++ (get_or pkt 2 0 ∷ get_or pkt 3 0 ∷ [])
                  ++ compressed)
                ∷ [],
          )
    ]

-- What a packet with a character holds, if it can be unpacked.
unfoldable pub saved_bytes : Store → List ℕ → Option (List ℕ)
saved_bytes db pkt =
    let n = u32_at pkt 2 - 6 in
    if ltb (length pkt) 6
    then none
    else if ltb (length pkt) (6 + n)
    then none
    else elim (db.decompress (take n (drop 6 pkt))) [
      | none ↦ none
      | some raw ↦ if ltb (length raw) 4 then none else some raw
    ]

-- The character that was handed to the database.
unfoldable pub handle_save_char : Store → CharState → List ℕ → Step × Option ℕ
unfolding saved_bytes
handle_save_char db state pkt = elim (saved_bytes db pkt) [
  | none ↦ ((state, []), none)
  | some raw ↦ ((state, saves raw ∷ []), some (u32_at raw 0))
]

abbrev pub put_offline : CharState → ℕ → CharState
put_offline state char_id = record state { online = remove char_id state.online }

unfoldable pub handle_logout : CharState → List ℕ → Step
handle_logout state pkt =
    if ltb (length pkt) 6 then (state, []) else (put_offline state (u32_at pkt 2), [])

-- The character that was saved goes offline.
abbrev pub leave : Step × Option ℕ → Step
leave (s, none) = s
leave ((state, sent), some char_id) = (put_offline state char_id, sent)

unfoldable pub handle_save_char_logout : Store → CharState → List ℕ → Step
unfolding handle_save_char
handle_save_char_logout db state pkt = leave (handle_save_char db state pkt)
