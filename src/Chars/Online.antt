-- ===== src/Chars/Online.antt =====
-- Who is online after any run of the character server's events.
use yuri.Base.{
  ℕ, ◌+◌, ◌*◌, ◌^◌, ◌%◌, ◌≤◌, ◌<◌, ◌≡◌, refl, ap, subst, ==_iff, arith, Bool, true, false, ◌&&◌,
  ◌||◌, not, List, [], ◌∷◌, Option, none, some, if◌then◌else◌, ltb, ◌==◌, inl, inr, length, drop,
  set, get_elem?, get_or, Option-cases, Bool-cases,
}
use yuri.Base.Map.{lookup, lookup-insert, lookup-remove_ne, lookup-remove-none, lookup-retain-none}
use yuri.Base.Buffers.{le32_value}
use yuri.Config.{ServerConfig, same_text}
use yuri.Login.Text.{text_of}
use yuri.Chars.Logins.{
  CharDb, CharState, CharInfo, LoginEntry, MapFifo, found, Query-cases, Message, to_login, saves,
  Step, field, rejected, admit, route, find_map_server, handle_usedname, handle_newchar,
  handle_setpass, handle_login, dispatch_login_packet,
}
use yuri.Chars.Maps.{
  Store, stays, read_maps, put_offline, leave, u32_at, saved_bytes, release_slot, release_players,
  handle_map_server, handle_mapset, handle_map_login, handle_request_char, handle_save_char,
  handle_logout, handle_save_char_logout,
}
use yuri.Chars.Events.{
  counted, online, introduction, introductions, introductions-append, Event, login_packet,
  map_connects, mapset, map_login, request_char, save_char, logout, save_char_logout, slot_released,
  players_released, handle, departure, run, departures,
}

-- After a step: the introductions of the character are covered by what it left before, or by its being
-- online now, and it is online only if it was or if it was introduced.
abbrev pub Balanced : ℕ → CharState → ℕ → Step → Type 0
Balanced id state left (next, sent) =
    (online id state + introductions id sent ≤ left + online id next)
    × (online id next ≤ online id state + introductions id sent)

idle : (id : ℕ) (state : CharState) (left : ℕ) → Balanced id state left (state, [])
idle id state left = (omega arith, omega arith)

route-Balanced :
    (id : ℕ) (state : CharState) (pkt name : List ℕ) (info : CharInfo)
    → info.char_id < 2 ^ 32
    → Balanced id state 0 (route state pkt name info)
unfolding route admit introduction
route-Balanced id state pkt name info small =
    elim (Option-cases (find_map_server (info.map_id % 2 ^ 16) state.map_servers)) [
      | inl e ↦ rw (route, e) (omega arith, omega arith)
      | inr ((idx, s), e) ↦ elim (Option-cases (lookup info.char_id state.online)) [
        | inl free ↦
            rw (route, e)
              (rw (free, admit)
                (rw
                  (lookup-insert info.char_id id (record { map_server_idx = idx; char_name = name })
                    state.online)
                  (rw (le32_value info.char_id small) (elim (Bool-cases (info.char_id == id)) [
                    | inl same ↦ rw same (
                        rw
                          (subst (λ k. lookup k state.online ≡ none)
                            ((==_iff info.char_id id).0 same) free)
                          (omega arith, omega arith))
                    | inr other ↦ rw other (omega arith, omega arith)
                  ]))))
        | inr (entry, there) ↦ rw (route, e) (rw there (omega arith, omega arith))
      ]
    ]

handle_login-Balanced :
    (db : CharDb) (id : ℕ) (state : CharState) (pkt : List ℕ)
    → ((name : List ℕ) (info : CharInfo)
        → db.char_login_lookup name ≡ found info
        → info.char_id < 2 ^ 32)
    → Balanced id state 0 (handle_login db state pkt)
unfolding handle_login introduction
handle_login-Balanced db id state pkt sized =
    let name = field pkt 4 16 in
    let pass = field pkt 20 16 in
    let none_sent : (code : ℕ) → Balanced id state 0 (rejected state pkt code) =
      λ code. (omega arith, omega arith) in
    elim (Bool-cases (ltb (length pkt) 40)) [
      | inl short ↦ rw (handle_login, short) (idle id state 0)
      | inr long ↦ elim (Query-cases (db.get_char_password name)) [
        | inl q ↦ rw (handle_login, long) (rw q (none_sent 1))
        | inr (inl q) ↦ rw (handle_login, long) (rw q (none_sent 2))
        | inr (inr (hash, q)) ↦
            elim (Bool-cases (not (db.ispass name pass hash) && not (db.is_master_password pass))) [
              | inl wrong ↦ rw (handle_login, long) (rw (q, wrong) (none_sent 3))
              | inr right ↦ elim (Query-cases (db.char_login_lookup name)) [
                | inl c ↦ rw (handle_login, long) (rw (q, right, c) (none_sent 1))
                | inr (inl c) ↦ rw (handle_login, long) (rw (q, right, c) (none_sent 2))
                | inr (inr (info, c)) ↦
                    elim (Bool-cases (info.banned || db.is_account_banned info.char_id)) [
                      | inl ban ↦ rw (handle_login, long) (rw (q, right, c) (rw ban (none_sent 4)))
                      | inr clean ↦
                          rw (handle_login, long)
                            (rw (q, right, c)
                              (rw clean
                                (route-Balanced id state pkt name info (sized name info c))))
                    ]
              ]
            ]
      ]
    ]

choose :
    (id : ℕ) (state : CharState) (left : ℕ) (b : Bool) (x y : Step)
    → Balanced id state left x
    → Balanced id state left y
    → Balanced id state left (if b then x else y)
choose id state left true x y hx hy = hx
choose id state left false x y hx hy = hy

-- What only loses entries.
shrunk :
    (o o' : Option LoginEntry)
    → (o ≡ none → o' ≡ none)
    → (counted o + 0 ≤ 1 + counted o') × (counted o' ≤ counted o + 0)
shrunk none none h = (omega arith, omega arith)
shrunk none (some e) h = absurd (cc (h refl))
shrunk (some e) none h = (omega arith, omega arith)
shrunk (some e) (some e') h = (omega arith, omega arith)

removed-Balanced :
    (id char_id : ℕ) (state : CharState) (sent : List Message)
    → introductions id sent ≡ 0
    → Balanced id state (if char_id == id then 1 else 0) (put_offline state char_id, sent)
removed-Balanced id char_id state sent h = elim (Bool-cases (char_id == id)) [
  | inl same ↦ rw (same, h) (shrunk _ _ (lookup-remove-none char_id id state.online))
  | inr other ↦
      rw (other, h) (rw (lookup-remove_ne char_id id state.online other) (omega arith, omega arith))
]

module _ (config : ServerConfig) (db : CharDb) (files : Store)
    (sized : (name : List ℕ) (info : CharInfo)
      → db.char_login_lookup name ≡ found info
      → info.char_id < 2 ^ 32)
    (id : ℕ) (state : CharState) where
  replies-Balanced :
      (b : Bool) (msg : List ℕ)
      → Balanced id state 0 (if b then (state, []) else (state, to_login msg ∷ []))
  unfolding introduction
  replies-Balanced true msg = idle id state 0
  replies-Balanced false msg = (omega arith, omega arith)

  login_packet-Balanced : (pkt : List ℕ) → Balanced id state 0 (dispatch_login_packet db state pkt)
  unfolding dispatch_login_packet handle_usedname handle_newchar handle_setpass
  login_packet-Balanced pkt =
      let cmd = get_or pkt 0 0 + get_or pkt 1 0 * 2 ^ 8 in
      choose id state 0 (cmd == 0x1001) _ _ (replies-Balanced (ltb (length pkt) 20) _) (
        choose id state 0 (cmd == 0x1002) _ _ (replies-Balanced (ltb (length pkt) 43) _) (
          choose id state 0 (cmd == 0x1003) _ _ (handle_login-Balanced db id state pkt sized) (
            choose id state 0 (cmd == 0x1004) _ _ (replies-Balanced (ltb (length pkt) 52) _)
              (idle id state 0))))

  logout-Balanced :
      (pkt : List ℕ)
      → Balanced id state (departure config db files id (logout pkt)) (handle_logout state pkt)
  unfolding departure handle_logout
  logout-Balanced pkt =
      choose id state _ (ltb (length pkt) 6) _ _ (idle id state _)
        (removed-Balanced id (u32_at pkt 2) state [] refl)

  not_saved :
      (pkt : List ℕ)
      → saved_bytes files pkt ≡ none
      → handle_save_char files state pkt ≡ ((state, []), none)
  unfolding handle_save_char
  not_saved pkt e = rw (handle_save_char, e) refl

  is_saved :
      (pkt raw : List ℕ)
      → saved_bytes files pkt ≡ some raw
      → handle_save_char files state pkt ≡ ((state, saves raw ∷ []), some (u32_at raw 0))
  unfolding handle_save_char
  is_saved pkt raw e = rw (handle_save_char, e) refl

  not_logged_out :
      (pkt : List ℕ)
      → saved_bytes files pkt ≡ none
      → handle_save_char_logout files state pkt ≡ (state, [])
  unfolding handle_save_char_logout
  not_logged_out pkt e = ap leave (not_saved pkt e)

  is_logged_out :
      (pkt raw : List ℕ)
      → saved_bytes files pkt ≡ some raw
      → handle_save_char_logout files state pkt ≡ (put_offline state (u32_at raw 0), saves raw ∷ [])
  unfolding handle_save_char_logout
  is_logged_out pkt raw e = ap leave (is_saved pkt raw e)

  save-Balanced :
      (pkt : List ℕ)
      → Balanced id state
          (departure config db files id (save_char_logout pkt))
          (handle_save_char_logout files state pkt)
  unfolding departure introduction
  save-Balanced pkt = elim (Option-cases (saved_bytes files pkt)) [
    | inl e ↦ rw (not_logged_out pkt e) (rw (departure, e) (idle id state 0))
    | inr (raw, e) ↦ rw (is_logged_out pkt raw e) (
        rw (departure, e) (removed-Balanced id (u32_at raw 0) state (saves raw ∷ []) (omega arith)))
  ]

  save_char-Balanced : (pkt : List ℕ) → Balanced id state 0 (handle_save_char files state pkt).0
  unfolding introduction
  save_char-Balanced pkt = elim (Option-cases (saved_bytes files pkt)) [
    | inl e ↦ rw (not_saved pkt e) (idle id state 0)
    | inr (raw, e) ↦ rw (is_saved pkt raw e) (omega arith, omega arith)
  ]

  mapset-Balanced : (idx : ℕ) (pkt : List ℕ) → Balanced id state 0 (handle_mapset state idx pkt)
  unfolding handle_mapset
  mapset-Balanced idx pkt =
      choose id state 0 (ltb (length pkt) 8) _ _ (idle id state 0)
        (slot (get_elem? state.map_servers idx))
    where
      slot :
          (o : Option (Option MapFifo))
          → Balanced id state 0 (elim o [
            | some (some s) ↦ (
              record state {
                map_servers = set state.map_servers idx (
                    some (record s {
                      maps = read_maps (get_or pkt 6 0 + get_or pkt 7 0 * 2 ^ 8) (drop 8 pkt);
                    }));
              },
              [],
            )
            | some none ↦ (state, [])
            | none ↦ (state, [])
          ])
      slot none = idle id state 0
      slot (some none) = idle id state 0
      slot (some (some s)) = idle id state 0

  request_char-Balanced :
      (idx : ℕ) (pkt : List ℕ) → Balanced id state 0 (handle_request_char files state idx pkt)
  unfolding handle_request_char introduction
  request_char-Balanced idx pkt = elim (Bool-cases (ltb (length pkt) 8)) [
    | inl short ↦ rw (handle_request_char, short) (idle id state 0)
    | inr long ↦ elim (Option-cases (files.load_char_bytes (u32_at pkt 4) (text_of (drop 8 pkt)))) [
      | inl e ↦ rw (handle_request_char, long) (rw e (idle id state 0))
      | inr (bytes, e) ↦ rw (handle_request_char, long) (rw e (omega arith, omega arith))
    ]
  ]

  connects-online : (pkt : List ℕ) → (handle_map_server config state pkt).0.online ≡ state.online
  unfolding handle_map_server
  connects-online pkt =
      elim (Bool-cases (
        not (same_text (field pkt 2 32) config.char_id)
        || not (same_text (field pkt 34 32) config.char_pw))) [
          | inl bad ↦ rw (handle_map_server, bad) refl
          | inr good ↦ rw (handle_map_server, good) refl
        ]

  handle-Balanced :
      (e : Event)
      → Balanced id state (departure config db files id e) (handle config db files state e)
  unfolding handle departure
  handle-Balanced (login_packet pkt) = login_packet-Balanced pkt
  handle-Balanced (map_connects pkt) = rw (connects-online pkt) (omega arith, omega arith)
  handle-Balanced (mapset idx pkt) = mapset-Balanced idx pkt
  handle-Balanced (map_login idx pkt) =
      unfold handle_map_login in replies-Balanced (ltb (length pkt) 20) _
  handle-Balanced (request_char idx pkt) = request_char-Balanced idx pkt
  handle-Balanced (save_char idx pkt) = save_char-Balanced pkt
  handle-Balanced (logout pkt) = logout-Balanced pkt
  handle-Balanced (save_char_logout pkt) = save-Balanced pkt
  handle-Balanced (slot_released idx) = unfold release_slot in idle id state 0
  handle-Balanced (players_released idx) =
      unfold release_players in shrunk _ _ (lookup-retain-none (stays idx) id state.online)

-- Over any run of events, the times that a map server is told of a character, and one if it is online at
-- first, are no more than the events at which it can leave (its logout, its save with a logout, the
-- release of the players of a slot), and one if it is online in the end. It is online in the end only if
-- it was or if a map server was told of it. The database's ids are below 2 ^ 32.
pub run-introductions :
    (config : ServerConfig) (db : CharDb) (files : Store) (id : ℕ) (state : CharState)
    (events : List Event)
    → ((name : List ℕ) (info : CharInfo)
        → db.char_login_lookup name ≡ found info
        → info.char_id < 2 ^ 32)
    → (online id state + introductions id (run config db files state events).1
        ≤ departures config db files id events + online id (run config db files state events).0)
      × (online id (run config db files state events).0
          ≤ online id state + introductions id (run config db files state events).1)
unfolding run
run-introductions config db files id state [] sized = (omega arith, omega arith)
run-introductions config db files id state (e ∷ events) sized =
    let first = handle-Balanced config db files sized id state e in
    let next = handle config db files state e in
    let later = run-introductions config db files id next.0 events sized in
    let sum = introductions-append id next.1 (run config db files next.0 events).1 in
    (omega (arith, first, later, sum), omega (arith, first, later, sum))
