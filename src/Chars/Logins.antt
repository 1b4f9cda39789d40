-- ===== src/Chars/Logins.antt =====
-- The handlers of src/servers/char/login.rs. The database, with the hashes of the passwords, is a
-- parameter; the upgrade of old hashes, which runs in the background, is left out. A handler is one step:
-- the map server that was found does not leave before it is told.
use yuri.Base.{
  ℕ, suc, ◌+◌, ◌*◌, ◌%◌, ◌^◌, ◌≡◌, refl, ◌⊎◌, inl, inr, Bool, false, not, ◌&&◌, ◌||◌, List, [], ◌∷◌,
  ◌++◌, Option, none, some, if◌then◌else◌, ltb, ◌==◌, length, take, drop, get_or, u16,
}
use yuri.Base.Int.{ℤ, pos, negsuc}
use yuri.Base.Map.{lookup, insert}
use yuri.Base.Buffers.{le16, le32}
use yuri.Config.{Text}
use yuri.Login.Text.{text_of}
use yuri.Login.Packet.{padded}

-- A field of a packet as a text.
abbrev pub field : List ℕ → ℕ → ℕ → Text
field pkt lo n = text_of (take n (drop lo pkt))

pub record MapFifo : Type 0 where
  pub maps : List ℕ
  pub ip : ℕ
  pub port : ℕ

pub record LoginEntry : Type 0 where
  pub map_server_idx : ℕ
  pub char_name : Text

pub record CharInfo : Type 0 where
  pub char_id : ℕ
  pub map_id : ℕ
  pub banned : Bool

-- A query fails, finds nothing, or finds a value.
pub data Query (A : Type 0) : Type 0 where
  failed : Query A
  absent : Query A
  found : A → Query A

pub Query-cases :
    {A : Type 0} (q : Query A) → (q ≡ failed) ⊎ ((q ≡ absent) ⊎ ((a : A) × (q ≡ found a)))
Query-cases failed = inl refl
Query-cases absent = inr (inl refl)
Query-cases (found a) = inr (inr (a, refl))

pub record CharDb : Type 0 where
  pub is_name_used : Text → Bool  -- true if the query fails
  pub create_char : Text → Text → List ℕ → ℕ
  pub get_char_password : Text → Query Text
  pub is_master_password : Text → Bool
  pub ispass : Text → Text → Text → Bool
  pub char_login_lookup : Text → Query CharInfo
  pub is_account_banned : ℕ → Bool
  pub set_char_password : Text → Text → Text → ℤ

pub record CharState : Type 0 where
  pub map_servers : List (Option MapFifo)
  pub online : List (ℕ × LoginEntry)

-- Messages in the order in which they are sent, and the records that are saved.
pub data Message : Type 0 where
  to_login : List ℕ → Message
  to_map : (idx : ℕ) → List ℕ → Message
  saves : List ℕ → Message

abbrev pub Step : Type 0
Step = CharState × List Message

-- The head of a response: the command, and the session of the request.
abbrev pub response : ℕ → List ℕ → List ℕ
response command pkt = command ∷ 0x20 ∷ get_or pkt 2 0 ∷ get_or pkt 3 0 ∷ []

unfoldable pub handle_usedname : CharDb → CharState → List ℕ → Step
handle_usedname db state pkt = if ltb (length pkt) 20 then (state, []) else (
  state,
  to_login (response 0x01 pkt ++ (if db.is_name_used (field pkt 4 16) then 1 else 0) ∷ []) ∷ [],
)

-- The fields of the new character are those at 36 to 42; the sex is cut to its lowest bit.
unfoldable pub handle_newchar : CharDb → CharState → List ℕ → Step
handle_newchar db state pkt =
    if ltb (length pkt) 43
    then (state, [])
    else let traits =
        get_or pkt 39 0
        ∷ get_or pkt 37 0 % 2
        ∷ get_or pkt 38 0
        ∷ get_or pkt 36 0
        ∷ get_or pkt 40 0
        ∷ get_or pkt 42 0
        ∷ get_or pkt 41 0
        ∷ [] in
      (
        state,
        to_login (
              response 0x02 pkt
              ++ db.create_char (field pkt 4 16) (field pkt 20 16) traits % 2 ^ 8 ∷ [])
            ∷ [],
      )

-- `res.unsigned_abs() as u8`.
abbrev pub abs_u8 : ℤ → ℕ
abs_u8 (pos n) = n % 2 ^ 8
abs_u8 (negsuc n) = (n + 1) % 2 ^ 8

unfoldable pub handle_setpass : CharDb → CharState → List ℕ → Step
handle_setpass db state pkt = if ltb (length pkt) 52 then (state, []) else (
  state,
  to_login (
        response 0x04 pkt
        ++ abs_u8 (db.set_char_password (field pkt 4 16) (field pkt 20 16) (field pkt 36 16)) ∷ [])
      ∷ [],
)

abbrev pub contains : ℕ → List ℕ → Bool
contains a [] = false
contains a (x ∷ xs) = x == a || contains a xs

-- The first connected map server that hosts a map.
unfoldable pub find_map_server : ℕ → List (Option MapFifo) → Option (ℕ × MapFifo)
find_map_server map_id [] = none
find_map_server map_id (none ∷ servers) = elim (find_map_server map_id servers) [
  | none ↦ none
  | some (i, s) ↦ some (suc i, s)
]
find_map_server map_id (some s ∷ servers) =
    let rest = find_map_server map_id servers in
    if contains map_id s.maps
    then some (0, s)
    else elim rest [ none ↦ none | some (i, s') ↦ some (suc i, s') ]

-- A login that ends with a result code and nothing else.
abbrev pub rejected : CharState → List ℕ → ℕ → Step
rejected state pkt code = (state, to_login (response 0x03 pkt ++ (code ∷ padded 22 [])) ∷ [])

abbrev pub map_msg : List ℕ → Text → CharInfo → List ℕ
map_msg pkt name info =
    (0x02 ∷ 0x38 ∷ get_or pkt 2 0 ∷ get_or pkt 3 0 ∷ [])
    ++ le32 info.char_id
    ++ padded 26 (take 16 name)
    ++ take 4 (drop 36 pkt)

-- The redirect: the map server is told of the player, the login server of the map server, and the
-- player counts as online.
unfoldable pub admit : CharState → List ℕ → Text → CharInfo → ℕ → MapFifo → Step
admit state pkt name info idx s = (
  record state {
    online = insert info.char_id (record { map_server_idx = idx; char_name = name }) state.online;
  },
  to_map idx (map_msg pkt name info)
      ∷ to_login (response 0x03 pkt ++ (0x00 ∷ (padded 16 name ++ (le32 s.ip ++ le16 s.port))))
      ∷ [],
)

-- A character that is online is refused, and its map server told to put it out.
unfoldable pub route : CharState → List ℕ → Text → CharInfo → Step
unfolding find_map_server admit
route state pkt name info = elim (find_map_server (u16 info.map_id) state.map_servers) [
  | none ↦ rejected state pkt 0x05
  | some (idx, s) ↦ elim (lookup info.char_id state.online) [
    | some entry ↦ (
      state,
      to_login (response 0x03 pkt ++ (0x06 ∷ padded 22 []))
          ∷ to_map idx (0x04 ∷ 0x38 ∷ le32 info.char_id)
          ∷ [],
    )
    | none ↦ admit state pkt name info idx s
  ]
]

unfoldable pub handle_login : CharDb → CharState → List ℕ → Step
unfolding route
handle_login db state pkt =
    let name = field pkt 4 16 in
    let pass = field pkt 20 16 in
    let admitted : Step = elim (db.char_login_lookup name) [
      | absent ↦ rejected state pkt 0x02
      | failed ↦ rejected state pkt 0x01
      | found info ↦
          if info.banned || db.is_account_banned info.char_id
          then rejected state pkt 0x04
          else route state pkt name info
    ] in
    if ltb (length pkt) 40 then (state, []) else elim (db.get_char_password name) [
      | absent ↦ rejected state pkt 0x02
      | failed ↦ rejected state pkt 0x01
      | found hash ↦
          if not (db.ispass name pass hash) && not (db.is_master_password pass)
          then rejected state pkt 0x03
          else admitted
    ]

unfoldable pub dispatch_login_packet : CharDb → CharState → List ℕ → Step
unfolding handle_usedname handle_newchar handle_login handle_setpass
dispatch_login_packet db state pkt =
    let cmd = get_or pkt 0 0 + get_or pkt 1 0 * 2 ^ 8 in
    if cmd == 0x1001
    then handle_usedname db state pkt
    else if cmd == 0x1002
    then handle_newchar db state pkt
    else if cmd == 0x1003
    then handle_login db state pkt
    else if cmd == 0x1004
    then handle_setpass db state pkt
    else (state, [])
