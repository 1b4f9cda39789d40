-- ===== src/Chars/Events.antt =====
-- What the character server handles on its two links, in any order, and who is online.
use yuri.Base.{
  ℕ, ◌+◌, ◌≡◌, arith, ◌&&◌, List, [], ◌∷◌, ◌++◌, Option, none, some, if◌then◌else◌, ◌==◌, get_or,
}
use yuri.Base.Map.{lookup}
use yuri.Config.{ServerConfig}
use yuri.Chars.Logins.{
  CharDb, CharState, LoginEntry, Message, to_login, to_map, saves, Step, dispatch_login_packet,
}
use yuri.Chars.Maps.{
  Store, u32_at, saved_bytes, release_slot, release_players, handle_map_server, handle_mapset,
  handle_map_login, handle_request_char, handle_save_char, handle_logout, handle_save_char_logout,
}

-- 1 for a character that is online.
abbrev pub counted : Option LoginEntry → ℕ
counted none = 0
counted (some e) = 1

abbrev pub online : ℕ → CharState → ℕ
online id state = counted (lookup id state.online)

-- 1 for the message that tells a map server of the character.
unfoldable pub introduction : ℕ → Message → ℕ
introduction id (to_map idx msg) =
    if get_or msg 0 0 == 0x02 && (get_or msg 1 0 == 0x38 && u32_at msg 4 == id) then 1 else 0
introduction id (to_login msg) = 0
introduction id (saves raw) = 0

abbrev pub introductions : ℕ → List Message → ℕ
introductions id [] = 0
introductions id (m ∷ ms) = introduction id m + introductions id ms

pub introductions-append :
    (id : ℕ) (xs ys : List Message)
    → introductions id (xs ++ ys) ≡ introductions id xs + introductions id ys
introductions-append id [] ys = omega arith
introductions-append id (x ∷ xs) ys = omega (arith, introductions-append id xs ys)

-- What the character server handles, one at a time.
pub data Event : Type 0 where
  login_packet : (pkt : List ℕ) → Event
  map_connects : (pkt : List ℕ) → Event
  mapset map_login request_char save_char : (idx : ℕ) (pkt : List ℕ) → Event
  logout save_char_logout : (pkt : List ℕ) → Event
  slot_released players_released : (idx : ℕ) → Event

module _ (config : ServerConfig) (db : CharDb) (files : Store) where
  unfoldable pub handle : CharState → Event → Step
  handle state (login_packet pkt) = dispatch_login_packet db state pkt
  handle state (map_connects pkt) = ((handle_map_server config state pkt).0, [])
  handle state (mapset idx pkt) = handle_mapset state idx pkt
  handle state (map_login idx pkt) = handle_map_login state pkt
  handle state (request_char idx pkt) = handle_request_char files state idx pkt
  handle state (save_char idx pkt) = (handle_save_char files state pkt).0
  handle state (logout pkt) = handle_logout state pkt
  handle state (save_char_logout pkt) = handle_save_char_logout files state pkt
  handle state (slot_released idx) = (release_slot state idx, [])
  handle state (players_released idx) = (release_players state idx, [])

  -- 1 for an event that can take the character offline.
  unfoldable pub departure : ℕ → Event → ℕ
  departure id (logout pkt) = if u32_at pkt 2 == id then 1 else 0
  departure id (save_char_logout pkt) = elim (saved_bytes files pkt) [
    | none ↦ 0
    | some raw ↦ if u32_at raw 0 == id then 1 else 0
  ]
  departure id (players_released idx) = 1
  departure id other = 0

  unfoldable pub run : CharState → List Event → Step
  unfolding handle
  run state [] = (state, [])
  run state (e ∷ es) =
      let (next, sent) = handle state e in let (last, more) = run next es in (last, sent ++ more)

  abbrev pub departures : ℕ → List Event → ℕ
  departures id [] = 0
  departures id (e ∷ es) = departure id e + departures id es
