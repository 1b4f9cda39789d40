-- ===== src/Chars/Requests.antt =====
-- The requests that the login server forwards for its clients, by the table of the character server.
use yuri.Base.{
  ℕ, ◌+◌, ◌%◌, ◌<◌, ◌≡◌, refl, sym, ◌∙◌, ◌||◌, inl, inr, List, [], ◌∷◌, ◌++◌, take, drop, some,
  arith, ltb, length, get_elem?, Bool-cases, Option-cases, length-append,
}
use yuri.Base.Buffers.{le16}
use yuri.Config.{Text, is_empty}
use yuri.Login.Packet.{length-padded, padded}
use yuri.Login.Client.{
  LoginState, SessionData, forwarded, request, register_next, login_next, login_next-free,
  login_next-barred, login_barred, dispatch_register, dispatch_login, dispatch_create_char,
  dispatch_change_pass,
}
use yuri.Login.Credentials.{
  get_elem?-lt, refuse-replied, dropped, refused, passed, with_credentials-Outcome,
}
use yuri.Login.ChangePass.{Change, dispatch_change_pass-Change}
use yuri.Chars.Link.{expected_len}

-- A packet that the character server's table of lengths describes.
pub record IsRequest (m : List ℕ) : Type 0 where
  pub command : ℕ
  pub body : List ℕ
  pub shape : m ≡ command ∷ 0x10 ∷ body
  pub known : command < 5
  pub measured : expected_len (command + 0x1000) ≡ length body + 2

request_at :
    (command session_id : ℕ) (body : List ℕ) {m : List ℕ}
    → m ≡ request command session_id ++ body
    → command < 5
    → expected_len (command + 0x1000) ≡ length body + 4
    → IsRequest m
request_at command session_id body e known measured = record {
  command = command;
  body = le16 session_id ++ body;
  shape = e;
  known = known;
  measured = omega (arith, measured);
}

module _ (state : LoginState) (sd sd' : SessionData) (session_id : ℕ) (pkt m : List ℕ) where
  pub register-IsRequest :
      dispatch_register state sd session_id pkt ≡ some (forwarded m, sd') → IsRequest m
  unfolding dispatch_register
  register-IsRequest h =
      elim (with_credentials-Outcome state sd pkt (register_next sd session_id)) [
        | dropped e ↦ absurd (cc (e, h))
        | refused p e ↦ absurd (cc (e, h))
        | passed name pass _ _ e ↦
            let shape : m ≡ request 0x01 session_id ++ padded 16 name =
              unfold register_next in cc (e, h) in
            request_at 1 session_id (padded 16 name) shape (omega arith)
              (unfold expected_len in omega (arith, length-padded 16 name))
      ]

  login_fields : Text → Text → List ℕ → List ℕ
  login_fields name pass peer = padded 16 name ++ (padded 16 pass ++ padded 4 peer)

  length-login_fields : (name pass peer : List ℕ) → length (login_fields name pass peer) ≡ 36
  unfolding login_fields
  length-login_fields name pass peer = omega (
    arith,
    length-padded 16 name,
    length-padded 16 pass,
    length-padded 4 peer,
    length-append (padded 16 name) (padded 16 pass ++ padded 4 peer),
    length-append (padded 16 pass) (padded 4 peer),
  )

  login_next-forwarded :
      (mt ut : Text) (peer : List ℕ) (name pass : Text)
      → login_next mt ut state sd session_id peer name pass ≡ some (forwarded m, sd')
      → m ≡ request 0x03 session_id ++ login_fields name pass peer
  unfolding login_fields
  login_next-forwarded mt ut peer name pass h =
      elim (Option-cases (login_barred mt ut state name)) [
        | inl free ↦ cc (login_next-free mt ut state sd session_id peer name pass free, h)
        | inr (text, barred) ↦
            let r = refuse-replied state sd 0x03 text in
            absurd
              (cc (login_next-barred mt ut state sd session_id peer name pass text barred, h, r.1))
      ]

  pub login-IsRequest :
      (mt ut : Text) (peer : List ℕ)
      → dispatch_login mt ut state sd session_id peer pkt ≡ some (forwarded m, sd')
      → IsRequest m
  unfolding dispatch_login
  login-IsRequest mt ut peer h =
      elim (with_credentials-Outcome state sd pkt (login_next mt ut state sd session_id peer)) [
        | dropped e ↦ absurd (cc (e, h))
        | refused p e ↦ absurd (cc (e, h))
        | passed name pass _ _ e ↦
            request_at 3 session_id (login_fields name pass peer)
              (login_next-forwarded mt ut peer name pass (sym e ∙ h)) (omega arith)
              (unfold expected_len in omega (arith, length-login_fields name pass peer))
      ]

  pub change-IsRequest :
      dispatch_change_pass state sd session_id pkt ≡ some (forwarded m, sd') → IsRequest m
  change-IsRequest h = elim (dispatch_change_pass-Change state sd session_id pkt) [
    | Change.too_short _ e ↦ absurd (cc (e, h))
    | Change.name_off _ _ _ e ↦ absurd (cc (e, h))
    | Change.old_off _ _ _ _ _ _ e ↦ absurd (cc (e, h))
    | Change.new_off _ _ _ _ _ _ _ e ↦ absurd (cc (e, h))
    | Change.refused _ _ _ _ _ _ _ _ e ↦ absurd (cc (e, h))
    | Change.panics _ _ _ _ _ _ _ e ↦ absurd (cc (e, h))
    | Change.sent name_len old_len new_len _ _ _ _ e ↦
        let nb = take name_len (drop 6 pkt) in
        let ob = take old_len (drop (6 + name_len + 1) pkt) in
        let pb = take new_len (drop (6 + name_len + 1 + old_len + 1) pkt) in
        let shape : m
            ≡ request 0x04 session_id ++ (padded 16 nb ++ (padded 16 ob ++ padded 16 pb)) =
          cc (e, h) in
        request_at 4 session_id (padded 16 nb ++ (padded 16 ob ++ padded 16 pb)) shape (omega arith)
          (unfold expected_len in
            omega (
              arith,
              length-padded 16 nb,
              length-padded 16 ob,
              length-padded 16 pb,
              length-append (padded 16 nb) (padded 16 ob ++ padded 16 pb),
              length-append (padded 16 ob) (padded 16 pb),
            ))
  ]

module _ (sd sd' : SessionData) (session_id : ℕ) (pkt m : List ℕ) where
  pub create-IsRequest :
      (nanos : ℕ)
      → dispatch_create_char sd session_id nanos pkt ≡ some (forwarded m, sd')
      → IsRequest m
  unfolding dispatch_create_char
  create-IsRequest nanos h = elim (Bool-cases (is_empty sd.name || is_empty sd.pass)) [
    | inl nameless ↦ absurd (ground (arith, h, nameless))
    | inr named ↦ elim (Bool-cases (ltb (length pkt) 13)) [
      | inl short ↦ absurd (ground (arith, h, named, short))
      | inr long ↦
          let at : (i : ℕ) → i < 13 → (a : ℕ) × (get_elem? pkt i ≡ some a) =
            λ i lt. get_elem?-lt pkt i (ground (arith, long, lt)) in
          let e6 = at 6 (omega arith) in
          let e7 = at 7 (omega arith) in
          let e8 = at 8 (omega arith) in
          let e9 = at 9 (omega arith) in
          let e10 = at 10 (omega arith) in
          let e12 = at 12 (omega arith) in
          let traits : List ℕ = e6.0 ∷ e10.0 ∷ nanos % 2 ∷ e12.0 ∷ e7.0 ∷ e9.0 ∷ e8.0 ∷ [] in
          let created : dispatch_create_char sd session_id nanos pkt
              ≡ some (
                forwarded (
                    request 0x02 session_id
                    ++ (padded 16 sd.name ++ (padded 16 sd.pass ++ traits))),
                record sd {
                  face = e6.0;
                  hair = e7.0;
                  face_color = e8.0;
                  hair_color = e9.0;
                  sex = e10.0;
                  totem = e12.0;
                  country = nanos % 2;
                },
              ) =
            rw (named, long) (rw (e6.1, e7.1, e8.1, e9.1, e10.1, e12.1) refl) in
          let shape : m
              ≡ request 0x02 session_id ++ (padded 16 sd.name ++ (padded 16 sd.pass ++ traits)) =
            cc (created, h) in
          request_at 2 session_id (padded 16 sd.name ++ (padded 16 sd.pass ++ traits)) shape
            (omega arith)
            (unfold expected_len in
              omega (
                arith,
                length-padded 16 sd.name,
                length-padded 16 sd.pass,
                length-append (padded 16 sd.name) (padded 16 sd.pass ++ traits),
                length-append (padded 16 sd.pass) traits,
              ))
    ]
  ]
