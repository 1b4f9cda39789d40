-- ===== src/Chars/Acknowledged.antt =====
-- The map server's acknowledgement of a player, and the second answer that it makes.
use mathlib.Core.List.{append_assoc}
use yuri.Base.{
  ℕ, zero, suc, ◌+◌, ◌-◌, ◌*◌, ◌^◌, ◌≤◌, ◌<◌, ◌≡◌, refl, ap, ◌∙◌, true, false, List, [], ◌∷◌, ◌++◌,
  some, arith, ltb, length, take, drop, get_or, replicate, length-append, length-take, length-drop,
  take-all,
}
use yuri.Config.{Text, same_text_refl}
use yuri.Login.Text.{every, is_alphanumeric}
use yuri.Login.Packet.{padded}
use yuri.Login.Client.{LoginState}
use yuri.Chars.Logins.{CharState, CharInfo, to_login, map_msg}
use yuri.Chars.Maps.{handle_map_login}
use yuri.Login.Packet.{length-padded}
use yuri.Chars.Confirmed.{confirmation, Redirected, confirmation-Redirected}
use yuri.MapServer.{
  AuthEntry, AuthDb, find_auth, insert_auth, before_nul, read_str, auth_entry, handle_authadd,
}

before_nul-take :
    (name t : List ℕ) (k : ℕ)
    → every is_alphanumeric name ≡ true
    → length name ≤ k
    → before_nul (take k (name ++ (0 ∷ t))) ≡ name
before_nul-take [] t zero plain fits = refl
before_nul-take [] t (suc k) plain fits = refl
before_nul-take (c ∷ name) t zero plain fits = absurd (omega (arith, fits))
before_nul-take (c ∷ name) t (suc k) plain fits =
    ground (arith, plain, fits, before_nul-take name t k)

module _ (name X : List ℕ) (fits : length name ≤ 16) where
  zeros : List ℕ
  zeros = replicate (25 - length name) 0 ++ X

  name_field : padded 26 (take 16 name) ++ X ≡ name ++ (0 ∷ zeros)
  unfolding zeros
  name_field = rw (take-all 16 name fits) (
      rw (take-all 26 name (omega (arith, fits))) (
        append_assoc name (replicate (26 - length name) 0) X
        ∙ ap (λ n. name ++ (replicate n 0 ++ X)) (room (length name) fits)))
    where
      room : (n : ℕ) → n ≤ 16 → 26 - n ≡ suc (25 - n)
      room n h = omega (arith, h)

insert_auth-find :
    (k : Text) (entry : AuthEntry) (auth : AuthDb)
    → find_auth k (insert_auth k entry auth) ≡ some entry
insert_auth-find k entry [] = rw (same_text_refl k) refl
insert_auth-find k entry ((key, old) ∷ rest) = ground (arith, insert_auth-find k entry rest)

module _ (lossy : List ℕ → Text) (pkt name : List ℕ) (info : CharInfo) (fits : length name ≤ 16)
    (plain : every is_alphanumeric name ≡ true) (long : 40 ≤ length pkt)
    (exact : (s : List ℕ) → every is_alphanumeric s ≡ true → lossy s ≡ s) where
  abbrev msg : List ℕ
  msg = map_msg pkt name info

  length-msg : length msg ≡ 38
  length-msg = omega (
    arith,
    long,
    length-append (padded 26 (take 16 name)) (take 4 (drop 36 pkt)),
    length-padded 26 (take 16 name),
    length-take 4 (drop 36 pkt),
    length-drop 36 pkt,
  )

  msg_name : read_str lossy msg 8 16 ≡ name
  unfolding read_str
  msg_name =
      ap (λ t. lossy (before_nul (take 16 t))) (name_field name (take 4 (drop 36 pkt)) fits)
      ∙ ap lossy (before_nul-take name (zeros name (take 4 (drop 36 pkt)) fits) 16 plain fits)
      ∙ exact name plain

  -- What the map server sends back.
  abbrev ack : List ℕ
  ack = (0x02 ∷ 0x30 ∷ get_or pkt 2 0 ∷ get_or pkt 3 0 ∷ []) ++ padded 16 name

  authadd_lem :
      (now : ℕ) (auth : AuthDb)
      → handle_authadd lossy now auth msg
        ≡ (insert_auth name (auth_entry lossy now msg) auth, ack ∷ [])
  unfolding handle_authadd
  authadd_lem now auth =
      let enough : ltb (length msg) 38 ≡ false = ground (arith, length-msg) in
      rw (handle_authadd, enough) (rw (msg_name) refl)

  ack-confirmation :
      (chars : CharState)
      → handle_map_login chars ack ≡ (chars, to_login (confirmation pkt name 0 0) ∷ [])
  unfolding handle_map_login
  ack-confirmation chars =
      let enough : ltb (length ack) 20 ≡ false = ground (arith, length-padded 16 name) in
      rw enough (
        rw (take-all 16 (padded 16 name) (omega (arith, length-padded 16 name))) (
          ap (λ t. (chars, to_login (0x03 ∷ 0x20 ∷ get_or pkt 2 0 ∷ get_or pkt 3 0 ∷ 0 ∷ t) ∷ []))
            refl))

-- A player of whom a map server is told is in its table, and the map server's acknowledgement makes the
-- character server answer the client's session a second time: with a redirect to the address 0 and the
-- port 0. The name is of at most 16 letters and digits, which the repair of texts leaves as they are, the
-- login packet has 40 bytes, and the session fits its field.
pub handle_authadd-Redirected :
    (lossy : List ℕ → Text) (state : LoginState) (chars : CharState) (pkt name rest more : List ℕ)
    (info : CharInfo) (now : ℕ) (auth : AuthDb)
    → length name ≤ 16
    → every is_alphanumeric name ≡ true
    → 40 ≤ length pkt
    → get_or pkt 2 0 + get_or pkt 3 0 * 2 ^ 8 < 2 ^ 16
    → ((s : List ℕ) → every is_alphanumeric s ≡ true → lossy s ≡ s)
    → (ack : List ℕ) × (r : List ℕ) × ((handle_authadd lossy now auth (map_msg pkt name info)).1
        ≡ ack ∷ [])
      × (find_auth name (handle_authadd lossy now auth (map_msg pkt name info)).0
          ≡ some (auth_entry lossy now (map_msg pkt name info)))
      × (handle_map_login chars ack ≡ (chars, to_login r ∷ []))
      × Redirected state pkt name rest more r 0 0
handle_authadd-Redirected lossy state chars pkt name rest more info now auth fits plain long session
      exact =
    let h = authadd_lem lossy pkt name info fits plain long exact now auth in
    (
      ack lossy pkt name info fits plain long exact,
      confirmation pkt name 0 0,
      ap (λ t. t.1) h,
      ap (λ t. find_auth name t.0) h
          ∙ insert_auth-find name (auth_entry lossy now (map_msg pkt name info)) auth,
      ack-confirmation lossy pkt name info fits plain long exact chars,
      confirmation-Redirected state pkt name rest more (record { maps = []; ip = 0; port = 0 }) fits
          plain (omega arith) (omega arith) session,
    )
