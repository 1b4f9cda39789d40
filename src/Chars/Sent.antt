-- ===== src/Chars/Sent.antt =====
-- What the login server forwards for its clients, as the character server reads it.
use yuri.Base.{
  ℕ, zero, suc, ◌+◌, ◌-◌, ◌≤◌, ◌<◌, ◌≡◌, refl, ap, Bool, false, List, [], ◌∷◌, ◌++◌, some, arith,
  ltb, ◌==◌, length, All, take-append_self, drop-append_self, length-append,
}
use yuri.Config.{Text}
use yuri.Login.Packet.{build_intif_auth_response}
use yuri.Login.Accept.{banner}
use yuri.Login.Client.{
  LoginState, SessionData, forwarded, dispatch_register, dispatch_login, dispatch_create_char,
  dispatch_change_pass,
}
use yuri.Chars.Link.{expected_len, skipped, received, link_round, link_loop}
use yuri.Chars.Requests.{
  IsRequest, register-IsRequest, login-IsRequest, change-IsRequest, create-IsRequest,
}

-- What the login server sends to the character server for one of its clients.
pub data Sent (m : List ℕ) : Type 0 where
  by_register :
      (state : LoginState) (sd sd' : SessionData) (session_id : ℕ) (pkt : List ℕ)
      → dispatch_register state sd session_id pkt ≡ some (forwarded m, sd')
      → Sent m
  by_login :
      (mt ut : Text) (state : LoginState) (sd sd' : SessionData) (session_id : ℕ)
      (peer pkt : List ℕ)
      → dispatch_login mt ut state sd session_id peer pkt ≡ some (forwarded m, sd')
      → Sent m
  by_create_char :
      (sd sd' : SessionData) (session_id nanos : ℕ) (pkt : List ℕ)
      → dispatch_create_char sd session_id nanos pkt ≡ some (forwarded m, sd')
      → Sent m
  by_change_pass :
      (state : LoginState) (sd sd' : SessionData) (session_id : ℕ) (pkt : List ℕ)
      → dispatch_change_pass state sd session_id pkt ≡ some (forwarded m, sd')
      → Sent m

Sent-IsRequest : (m : List ℕ) → Sent m → IsRequest m
Sent-IsRequest m (by_register state sd sd' session_id pkt h) =
    register-IsRequest state sd sd' session_id pkt m h
Sent-IsRequest m (by_login mt ut state sd sd' session_id peer pkt h) =
    login-IsRequest state sd sd' session_id pkt m mt ut peer h
Sent-IsRequest m (by_create_char sd sd' session_id nanos pkt h) =
    create-IsRequest sd sd' session_id pkt m nanos h
Sent-IsRequest m (by_change_pass state sd sd' session_id pkt h) =
    change-IsRequest state sd sd' session_id pkt m h

-- A packet of the table is cut off the stream.
link_round-request :
    (command : ℕ) (body rest : List ℕ)
    → command < 5
    → expected_len (command + 0x1000) ≡ length body + 2
    → link_round ((command ∷ 0x10 ∷ body) ++ rest) ≡ received (command ∷ 0x10 ∷ body) rest
unfolding link_round
link_round-request command body rest known measured =
    let off : (command == 0xAA) ≡ false = ground (arith, known) in
    let n : length body + 2 - 2 ≡ length body = omega arith in
    let some_len : (length body + 2 == 0) ≡ false = ground arith in
    let enough : ltb (length (body ++ rest)) (length body) ≡ false =
      ground (arith, length-append body rest) in
    rw (off, measured)
      (rw (some_len, n)
        (rw
          (
            enough,
            take-append_self (length body) body rest refl,
            drop-append_self (length body) body rest refl,
          )
          refl))

abbrev pub flatten : List (List ℕ) → List ℕ
flatten [] = []
flatten (m ∷ ms) = m ++ flatten ms

link_loop-requests :
    (ms : List (List ℕ)) (fuel : ℕ)
    → All Sent ms
    → length ms ≤ fuel
    → link_loop fuel (flatten ms) ≡ ms
unfolding link_loop
link_loop-requests [] zero sent h = refl
link_loop-requests [] (suc fuel) sent h = unfold link_round in refl
link_loop-requests (m ∷ ms) zero sent h = absurd (omega (arith, h))
link_loop-requests (m ∷ ms) (suc fuel) sent h =
    let r = Sent-IsRequest m sent.0 in
    let round : link_round (m ++ flatten ms) ≡ received m (flatten ms) =
      rw r.shape (link_round-request r.command r.body (flatten ms) r.known r.measured) in
    rw (link_loop, round) (ap (◌∷◌ m) (link_loop-requests ms fuel sent.1 (omega (arith, h))))

link_round-banner : (stream : List ℕ) → link_round (banner ++ stream) ≡ skipped stream
unfolding link_round
link_round-banner stream = ground arith

link_round-response :
    (accepted : Bool) (stream : List ℕ)
    → link_round (build_intif_auth_response accepted ++ stream)
      ≡ received (build_intif_auth_response accepted) stream
unfolding link_round build_intif_auth_response
link_round-response accepted stream = ground arith

-- Behind the banner and the answer to the handshake, the character server reads exactly the requests
-- that the login server forwarded for its clients, in their order, with one round of its loop for each.
pub link_loop-Sent :
    (accepted : Bool) (ms : List (List ℕ)) (fuel : ℕ)
    → All Sent ms
    → length ms ≤ fuel
    → link_loop (suc (suc fuel)) (banner ++ (build_intif_auth_response accepted ++ flatten ms))
      ≡ build_intif_auth_response accepted ∷ ms
unfolding link_loop
link_loop-Sent accepted ms fuel sent h =
    rw (link_loop, link_round-banner (build_intif_auth_response accepted ++ flatten ms))
      (rw (link_round-response accepted (flatten ms))
        (ap (◌∷◌ (build_intif_auth_response accepted)) (link_loop-requests ms fuel sent h)))
