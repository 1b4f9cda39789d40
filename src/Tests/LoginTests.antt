-- ===== src/Tests/LoginTests.antt =====
-- src/servers/login and src/servers/char on concrete inputs.
use yuri.Base.{
  ℕ, ◌+◌, ◌*◌, ◌^◌, ◌%◌, ◌≤◌, ◌<◌, ◌≡◌, refl, ap, sym, arith, Bool, true, false, not, ◌&&◌, List,
  [], ◌∷◌, ◌++◌, Option, ◌↔◌, some, none, length, take, drop, set, get_or, replicate,
}
use yuri.Base.Int.{pos}
use yuri.Base.Map.{lookup}
use yuri.Base.Buffers.{slice}
use yuri.Config.{
  ServerConfig, Text, same_text, validate, xor_key_too_long, IsUsable, validate-IsUsable,
}
use yuri.Network.Frame.{frame, read_framed_packet}
use yuri.Login.Text.{is_valid_name, is_valid_password, text_of, is_utf8, utf8_from, trim_nul}
use yuri.Login.Packet.{padded, build_intif_auth_response, build_message}
use yuri.Login.Message.{read_message, build_message_lem}
use yuri.Login.Client.{
  LoginState, SessionData, forwarded, login_barred, login_next, with_credentials, read_text,
  dispatch_login,
}
use yuri.Login.ChangePass.{Change, dispatch_change_pass-Change}
use yuri.Login.Credentials.{packet}
use yuri.Login.Accept.{banner, charserver, handle_new_connection}
use yuri.Login.Interserver.{promote_to_charserver}
use yuri.Chars.Link.{handshake, received, link_loop}
use yuri.Chars.Logins.{
  CharDb, CharState, CharInfo, MapFifo, Query, found, absent, failed, dispatch_login_packet,
  handle_login, route, find_map_server, to_map, to_login, field, map_msg, admit,
}
use yuri.Chars.Maps.{
  release_slot, release_players, handle_map_server, free_slot, occupy, read_maps, handle_logout,
  Store, map_round, handle_mapset, handle_map_login,
}
use yuri.Chars.Sent.{by_login, flatten, link_loop-Sent}
use yuri.Chars.Delivered.{dispatch_login-field}
use yuri.Chars.Events.{
  handle, introduction, Event, login_packet, map_connects, mapset, slot_released, players_released,
  logout, online, introductions, run, departures,
}
use yuri.Chars.Online.{run-introductions}
use yuri.Chars.Confirmed.{Redirected, admit-Redirected}
use yuri.Chars.Handshake.{handshake-promote_to_charserver}
use yuri.Chars.Acknowledged.{handle_authadd-Redirected}
use yuri.Chars.Announced.{handle_accept-handle_mapset}
use yuri.MapServer.{find_auth, auth_entry, handle_accept, handle_authadd}

abbrev config : ServerConfig
config = record {
  sql_ip = b'd' ∷ [];
  sql_port = 3306;
  sql_id = b'u' ∷ [];
  sql_pw = [];
  sql_db = b'y' ∷ [];
  login_id = b'l' ∷ b'1' ∷ [];
  login_pw = b'p' ∷ [];
  login_ip = b'a' ∷ [];
  login_port = 2000;
  char_id = b'c' ∷ [];
  char_pw = b'q' ∷ [];
  char_ip = b'a' ∷ [];
  char_port = 2005;
  map_ip = b'a' ∷ [];
  map_port = 2001;
  server_id = pos 0;
  xor_key = b'k' ∷ b'e' ∷ b'y' ∷ [];
  start_point = record { m = 0; x = 1; y = 1 };
  version = pos 750;
  deep = pos 8;
  require_reg = pos 1;
  save_time = pos 60;
  xprate = pos 1;
  droprate = pos 1;
  meta_files = [];
  town = [];
  data_dir = [];
  lua_dir = [];
  maps_dir = [];
  meta_dir = [];
}

abbrev state : LoginState
state = record { db = none; config = config; messages = λ lgn. b'n' ∷ b'o' ∷ [] }

abbrev nobody : SessionData
nobody = record {
  name = [];
  pass = [];
  face = 0;
  sex = 0;
  country = 0;
  totem = 0;
  hair = 0;
  hair_color = 0;
  face_color = 0;
}

abbrev yuria : Text
yuria = b'Y' ∷ b'u' ∷ b'r' ∷ b'i' ∷ b'a' ∷ []

abbrev secret : Text
secret = b's' ∷ b'e' ∷ b'c' ∷ b'1' ∷ []

-- A configuration with a key of ten bytes is refused.
long_key : validate (record config { xor_key = replicate 10 b'k' }) ≡ some (xor_key_too_long 10)
unfolding validate
long_key = refl

validate-IsUsable_example : (validate config ≡ none) ↔ IsUsable config
validate-IsUsable_example = validate-IsUsable config

-- A login of the player from 10.0.0.1 in session 5.
abbrev login_of : List ℕ
login_of =
    (0x03 ∷ 0x10 ∷ 5 ∷ 0 ∷ []) ++ (padded 16 yuria ++ (padded 16 secret ++ (10 ∷ 0 ∷ 0 ∷ 1 ∷ [])))

abbrev player : CharInfo
player = record { char_id = 7; map_id = 1; banned = false }

abbrev db : CharDb
db = record {
  is_name_used = λ name. true;
  create_char = λ name pass traits. 1;
  get_char_password = λ name. found secret;
  is_master_password = λ pass. false;
  ispass = λ name pass hash. same_text pass hash;
  char_login_lookup = λ name. found player;
  is_account_banned = λ id. false;
  set_char_password = λ name pass new. pos 0;
}

abbrev map_one : MapFifo
map_one = record { maps = 1 ∷ []; ip = 0x0100007F; port = 2001 }

abbrev chars : CharState
chars = record { map_servers = some map_one ∷ []; online = [] }

abbrev files : Store
files = record {
  load_char_bytes = λ id name. none;
  compress = λ bytes. bytes;
  decompress = λ bytes. some bytes;
}

small_id :
    (name : List ℕ) (info : CharInfo)
    → db.char_login_lookup name ≡ found info
    → info.char_id < 2 ^ 32
small_id name info h = omega (arith, ap id_of h)
  where
    id_of : Query CharInfo → ℕ
    id_of (found c) = c.char_id
    id_of absent = 0
    id_of failed = 0

-- Two logins, a logout and a login.
abbrev events : List Event
events =
    login_packet login_of
    ∷ login_packet login_of
    ∷ logout (0x05 ∷ 0x30 ∷ 7 ∷ 0 ∷ 0 ∷ 0 ∷ [])
    ∷ login_packet login_of
    ∷ []

run-introductions_example :
    (online 7 chars + introductions 7 (run config db files chars events).1
      ≤ departures config db files 7 events + online 7 (run config db files chars events).0)
    × (online 7 (run config db files chars events).0
        ≤ online 7 chars + introductions 7 (run config db files chars events).1)
run-introductions_example = run-introductions config db files 7 chars events small_id

-- The player is told to the map server twice.
told_twice : introductions 7 (run config db files chars events).1 ≡ 2
unfolding run handle dispatch_login_packet handle_login route admit find_map_server introduction
    handle_logout text_of is_utf8 utf8_from trim_nul lookup yuri.Base.Map.insert
    yuri.Base.Map.remove
told_twice = refl

-- A map server takes the slot that another one left before the players of that one are put out: its
-- player is put out with them, and is let in again while in the game.
abbrev overlap : List Event
overlap =
    slot_released 0
    ∷ map_connects
        ((0x00 ∷ 0x30 ∷ []) ++ (padded 32 (b'c' ∷ []) ++ (padded 32 (b'q' ∷ []) ++ replicate 6 0)))
    ∷ mapset 0 (0x01 ∷ 0x30 ∷ 10 ∷ 0 ∷ 0 ∷ 0 ∷ 1 ∷ 0 ∷ 1 ∷ 0 ∷ [])
    ∷ login_packet login_of
    ∷ players_released 0
    ∷ login_packet login_of
    ∷ []

let_in_again : introductions 7 (run config db files chars overlap).1 ≡ 2
unfolding run handle dispatch_login_packet handle_login route admit find_map_server introduction
    release_slot release_players handle_map_server free_slot occupy handle_mapset read_maps text_of
    is_utf8 utf8_from trim_nul lookup yuri.Base.Map.insert yuri.Base.Map.retain
let_in_again = refl

admit-Redirected_example :
    (r : List ℕ) × ((admit chars login_of yuria player 0 map_one).1
      ≡ to_map 0 (map_msg login_of yuria player) ∷ to_login r ∷ [])
    × Redirected state login_of yuria [] [] r 0x0100007F 2001
admit-Redirected_example =
    admit-Redirected state chars login_of yuria [] [] player 0 map_one (omega arith) refl
      (omega arith) (omega arith) (omega arith)

handle_authadd-Redirected_example :
    (ack : List ℕ) × (r : List ℕ) × ((handle_authadd
        (λ s. s)
        0
        []
        (map_msg login_of yuria player)).1
      ≡ ack ∷ [])
    × (find_auth yuria (handle_authadd (λ s. s) 0 [] (map_msg login_of yuria player)).0
        ≡ some (auth_entry (λ s. s) 0 (map_msg login_of yuria player)))
    × (handle_map_login chars ack ≡ (chars, to_login r ∷ []))
    × Redirected state login_of yuria [] [] r 0 0
handle_authadd-Redirected_example =
    handle_authadd-Redirected (λ s. s) state chars login_of yuria [] [] player 0 [] (omega arith)
      refl (omega arith) (omega arith) (λ s h. refl)

handshake-promote_to_charserver_example :
    (handle_new_connection true [] (λ ip. false) (some 9) (handshake config ++ [])
      ≡ charserver (handshake config) [])
    × ((promote_to_charserver config false (handshake config)).1 ≡ (
        not false
        && (same_text config.login_id config.login_id
            && same_text config.login_pw config.login_pw)))
unfolding lookup
handshake-promote_to_charserver_example =
    handshake-promote_to_charserver config config false true [] (λ ip. false) 9 [] refl refl refl
      (omega arith) (omega arith) refl (omega arith)

handle_accept-handle_mapset_example :
    (m : List ℕ) × (handle_accept (1 ∷ 300 ∷ []) (0x00 ∷ 0x38 ∷ 0 ∷ 0 ∷ []) ≡ some m)
    × (map_round (m ++ []) ≡ received m [])
    × (handle_mapset chars 0 m ≡ (
      record chars {
        map_servers = set chars.map_servers 0 (some (record map_one { maps = 1 ∷ 300 ∷ [] }));
      },
      [],
    ))
handle_accept-handle_mapset_example =
    handle_accept-handle_mapset (1 ∷ 300 ∷ []) (0x00 ∷ 0x38 ∷ 0 ∷ 0 ∷ []) [] chars 0 map_one
      (omega arith) (omega arith, (omega arith, tt)) (omega arith) refl refl

build_message_lem_example :
    (pkt : List ℕ) × (build_message 3 secret config.xor_key ≡ some pkt)
    × (read_framed_packet (pkt ++ []) ≡ frame pkt [])
    × (read_message config.xor_key pkt ≡ some (3, secret))
build_message_lem_example = build_message_lem 3 secret config.xor_key []

-- The packet of the same login from the client.
abbrev client_login : List ℕ
client_login = packet 0xAA 0 12 0x03 0 yuria secret []

dispatch_login-field_example :
    (m : List ℕ) × (dispatch_login [] [] state nobody 5 (10 ∷ 0 ∷ 0 ∷ 1 ∷ []) client_login
      ≡ some (forwarded m, record nobody { name = yuria; pass = secret }))
    × (length m ≡ 40)
    × (field m 4 16 ≡ yuria)
    × (field m 20 16 ≡ secret)
    × (take 4 (drop 36 m) ≡ 10 ∷ 0 ∷ 0 ∷ 1 ∷ [])
    × (get_or m 2 0 + get_or m 3 0 * 2 ^ 8 ≡ 5)
unfolding is_valid_name is_valid_password login_barred
dispatch_login-field_example =
    dispatch_login-field [] [] state nobody 5 0xAA 0 12 0x03 0 yuria secret [] (10 ∷ 0 ∷ 0 ∷ 1 ∷ [])
      refl refl refl refl (omega arith)

-- It makes the request above.
logs_in :
    dispatch_login [] [] state nobody 5 (10 ∷ 0 ∷ 0 ∷ 1 ∷ []) client_login
    ≡ some (forwarded login_of, record nobody { name = yuria; pass = secret })
unfolding dispatch_login with_credentials read_text slice login_next login_barred is_valid_name
    is_valid_password text_of is_utf8 utf8_from trim_nul
logs_in = refl

link_loop-Sent_example :
    link_loop 4 (banner ++ (build_intif_auth_response true ++ flatten (login_of ∷ login_of ∷ [])))
    ≡ build_intif_auth_response true ∷ login_of ∷ login_of ∷ []
link_loop-Sent_example =
    link_loop-Sent true (login_of ∷ login_of ∷ []) 2
      (
        by_login [] [] state nobody _ 5 (10 ∷ 0 ∷ 0 ∷ 1 ∷ []) client_login logs_in,
        (by_login [] [] state nobody _ 5 (10 ∷ 0 ∷ 0 ∷ 1 ∷ []) client_login logs_in, tt),
      )
      (omega arith)

-- A change of the password that ends within the new password of five bytes.
abbrev cut_change : List ℕ
cut_change = 0xAA ∷ 0 ∷ 9 ∷ 0x26 ∷ 0 ∷ 3 ∷ b'b' ∷ b'o' ∷ b'b' ∷ 2 ∷ b'x' ∷ b'y' ∷ 5 ∷ b'n' ∷ []

dispatch_change_pass-Change_example : Change state nobody 5 cut_change
dispatch_change_pass-Change_example = dispatch_change_pass-Change state nobody 5 cut_change
