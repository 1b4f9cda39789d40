-- ===== src/Chars/Delivered.antt =====
-- A login from the client's packet to the character server and back.
use mathlib.Core.List.{append-nil}
use yuri.Base.{
  ℕ, ◌+◌, ◌-◌, ◌*◌, ◌^◌, ◌≤◌, ◌<◌, ◌≡◌, sym, ap, ◌∙◌, true, List, ◌++◌, none, some, arith, length,
  take, drop, get_or, replicate, take-append_self, drop-append_self, length-append, take-all,
  drop-drop,
}
use yuri.Config.{Text}
use yuri.Login.Text.{
  text_of, is_valid_name, is_valid_password, every, is_alphanumeric, text_of-padded,
}
use yuri.Login.Packet.{padded}
use yuri.Login.Client.{
  LoginState, SessionData, forwarded, request, login_barred, login_next-free, dispatch_login,
}
use yuri.Login.Credentials.{packet, with_credentials-packet, valid_name_chars, valid_password_chars}
use yuri.Login.Packet.{length-padded}
use yuri.Chars.Logins.{field}

-- A short text in a field is read back.
pub field_text :
    (n : ℕ) (s : List ℕ) → every is_alphanumeric s ≡ true → length s ≤ n → text_of (padded n s) ≡ s
field_text n s h fits = rw (take-all n s fits) (text_of-padded s (n - length s) h)

module _ (command session_id : ℕ) (name pass peer : List ℕ) where
  sent : List ℕ
  sent = request command session_id ++ (padded 16 name ++ (padded 16 pass ++ padded 4 peer))

  at4 : take 16 (drop 4 sent) ≡ padded 16 name
  unfolding sent
  at4 =
      take-append_self 16 (padded 16 name) (padded 16 pass ++ padded 4 peer) (length-padded 16 name)

  at20 : drop 20 sent ≡ padded 16 pass ++ padded 4 peer
  unfolding sent
  at20 =
      drop-append_self 16 (padded 16 name) (padded 16 pass ++ padded 4 peer) (length-padded 16 name)

  at36 : drop 36 sent ≡ padded 4 peer
  unfolding sent
  at36 =
      sym (drop-drop 20 16 sent)
      ∙ ap (drop 16) at20
      ∙ drop-append_self 16 (padded 16 pass) (padded 4 peer) (length-padded 16 pass)

  -- The session, low byte first.
  session_bytes : session_id < 2 ^ 16 → get_or sent 2 0 + get_or sent 3 0 * 2 ^ 8 ≡ session_id
  unfolding sent
  session_bytes h = omega (arith, h)

  length-sent : length sent ≡ 40
  unfolding sent
  length-sent = omega (
    arith,
    length-padded 16 name,
    length-padded 16 pass,
    length-padded 4 peer,
    length-append (padded 16 name) (padded 16 pass ++ padded 4 peer),
    length-append (padded 16 pass) (padded 4 peer),
  )

short_name : (s : List ℕ) → is_valid_name s ≡ true → length s ≤ 12
unfolding is_valid_name
short_name s h = ground (arith, h)

short_password : (s : List ℕ) → is_valid_password s ≡ true → length s ≤ 8
unfolding is_valid_password
short_password s h = ground (arith, h)

own_peer : (peer : List ℕ) → length peer ≡ 4 → take 4 (padded 4 peer) ≡ peer
own_peer peer four =
    take-all 4 (padded 4 peer) (omega (arith, length-padded 4 peer)) ∙ full (length peer) four
  where
    full : (n : ℕ) → n ≡ 4 → take 4 peer ++ replicate (4 - n) 0 ≡ peer
    full n e = rw e (append-nil (take 4 peer) ∙ take-all 4 peer (omega (arith, four)))

-- A client's login with a valid name and a valid password, each behind its length, is forwarded if
-- nothing bars it, and the character server reads from the message the name, the password, the client's
-- address of four bytes and the session, which fits its field.
pub dispatch_login-field :
    (mt ut : Text) (state : LoginState) (sd : SessionData) (session_id h0 h1 h2 h3 h4 : ℕ)
    (name pass rest peer : List ℕ)
    → is_valid_name name ≡ true
    → is_valid_password pass ≡ true
    → login_barred mt ut state name ≡ none
    → length peer ≡ 4
    → session_id < 2 ^ 16
    → (m : List ℕ) × (dispatch_login mt ut state sd session_id peer
          (packet h0 h1 h2 h3 h4 name pass rest)
        ≡ some (forwarded m, record sd { name = name; pass = pass }))
      × (length m ≡ 40)
      × (field m 4 16 ≡ name)
      × (field m 20 16 ≡ pass)
      × (take 4 (drop 36 m) ≡ peer)
      × (get_or m 2 0 + get_or m 3 0 * 2 ^ 8 ≡ session_id)
unfolding dispatch_login sent
dispatch_login-field mt ut state sd session_id h0 h1 h2 h3 h4 name pass rest peer nv pv free four
      small =
    (
      sent 0x03 session_id name pass peer,
      with_credentials-packet state sd h0 h1 h2 h3 h4 name pass rest _ nv pv
          ∙ login_next-free mt ut state sd session_id peer name pass free,
      length-sent 0x03 session_id name pass peer,
      ap text_of (at4 0x03 session_id name pass peer)
          ∙ field_text 16 name (valid_name_chars name nv) (omega (arith, short_name name nv)),
      ap (λ t. text_of (take 16 t)) (at20 0x03 session_id name pass peer)
          ∙ ap text_of
              (take-append_self 16 (padded 16 pass) (padded 4 peer) (length-padded 16 pass))
          ∙ field_text 16 pass (valid_password_chars pass pv)
              (omega (arith, short_password pass pv)),
      ap (take 4) (at36 0x03 session_id name pass peer) ∙ own_peer peer four,
      session_bytes 0x03 session_id name pass peer small,
    )
