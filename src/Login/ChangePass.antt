-- ===== src/Login/ChangePass.antt =====
-- The change of a password in src/servers/login/client.rs, on every packet.
use yuri.Base.{
  ℕ, zero, suc, ◌+◌, ◌-◌, ◌≤◌, ◌<◌, ◌≡◌, refl, ap, ◌∙◌, true, false, ◌||◌, ◌&&◌, ◌⊎◌, inl, inr,
  List, [], ◌∷◌, ◌++◌, Option, none, some, arith, ltb, leb, min, length, take, drop, get_elem?,
  Bool-cases,
}
use yuri.Base.Buffers.{◌>>=◌, slice}
use yuri.Config.{Text}
use yuri.Login.Text.{is_valid_name, text_of}
use yuri.Login.Packet.{padded, build_message}
use yuri.Login.Message.{build_message_lem}
use yuri.Login.Client.{
  LoginState, SessionData, refuse, ignored, replied, forwarded, Handled, read_text, request,
  dispatch_change_pass, erruser,
}
use yuri.Login.Credentials.{get_elem?-lt, read_text_inside}

-- The length of a field is cut at 16, which its test keeps it from passing.
slice_field :
    (xs : List ℕ) (lo n : ℕ)
    → n ≤ 16
    → lo + n ≤ length xs
    → slice xs lo (lo + min n 16) ≡ some (take n (drop lo xs))
unfolding slice
slice_field xs lo n small fits =
    let cut : min n 16 ≡ n = ground (arith, small) in
    let span : lo + n - lo ≡ n = omega arith in
    let inside : (leb lo (lo + n) && leb (lo + n) (length xs)) ≡ true = ground (arith, fits) in
    rw (cut, inside, span) refl

slice_cut : (xs : List ℕ) (lo hi : ℕ) → length xs < hi → slice xs lo hi ≡ none
unfolding slice
slice_cut xs lo hi h = ground (arith, h)

get_elem?-some : (xs : List ℕ) (i a : ℕ) → get_elem? xs i ≡ some a → i < length xs
get_elem?-some [] i a h = cc
get_elem?-some (x ∷ xs) zero a h = omega arith
get_elem?-some (x ∷ xs) (suc i) a h = omega (arith, get_elem?-some xs i a h)

module _ (state : LoginState) (sd : SessionData) (session_id : ℕ) (pkt : List ℕ) where
  abbrev result : Handled
  result = dispatch_change_pass state sd session_id pkt

  -- The lengths that the packet announces: of the name, at byte 5, and of the two passwords, each behind
  -- the field before it.
  abbrev Announced : ℕ → ℕ → ℕ → Type 0
  Announced name_len old_len new_len =
      (get_elem? pkt 5 ≡ some name_len)
      × (get_elem? pkt (6 + name_len) ≡ some old_len)
      × (get_elem? pkt (6 + name_len + 1 + old_len) ≡ some new_len)

  abbrev LengthsFit : ℕ → ℕ → ℕ → Type 0
  LengthsFit name_len old_len new_len =
      (name_len ≤ 16) × (old_len ≤ 16) × (3 ≤ new_len) × (new_len ≤ 8)

  -- What comes of a request to change a password, and when.
  pub data Change : Type 0 where
    too_short : length pkt < 6 → result ≡ some (ignored, sd) → Change
    name_off :
        (name_len : ℕ)
        → get_elem? pkt 5 ≡ some name_len
        → (16 < name_len) ⊎ (length pkt ≤ 6 + name_len)
        → result ≡ some (ignored, sd)
        → Change
    old_off :
        (name_len old_len : ℕ)
        → get_elem? pkt 5 ≡ some name_len
        → name_len ≤ 16
        → get_elem? pkt (6 + name_len) ≡ some old_len
        → (16 < old_len) ⊎ (length pkt ≤ 6 + name_len + 1 + old_len)
        → result ≡ some (ignored, sd)
        → Change
    new_off :
        (name_len old_len new_len : ℕ)
        → Announced name_len old_len new_len
        → name_len ≤ 16
        → old_len ≤ 16
        → (8 < new_len) ⊎ (new_len < 3)
        → result ≡ some (ignored, sd)
        → Change
    refused :
        (name_len old_len new_len : ℕ)
        → Announced name_len old_len new_len
        → LengthsFit name_len old_len new_len
        → is_valid_name (text_of (take name_len (drop 6 pkt))) ≡ false
        → (p : List ℕ) → build_message 0x03 (state.messages erruser) state.config.xor_key ≡ some p
        → result ≡ some (replied p, sd)
        → Change
    sent :
        (name_len old_len new_len : ℕ)
        → Announced name_len old_len new_len
        → LengthsFit name_len old_len new_len
        → is_valid_name (text_of (take name_len (drop 6 pkt))) ≡ true
        → 6 + name_len + 1 + old_len + 1 + new_len ≤ length pkt
        → result
          ≡ some (
            forwarded (
                request 0x04 session_id
                ++ (padded 16 (take name_len (drop 6 pkt))
                    ++ (padded 16 (take old_len (drop (6 + name_len + 1) pkt))
                        ++ padded 16 (take new_len (drop (6 + name_len + 1 + old_len + 1) pkt))))),
            record sd { name = text_of (take name_len (drop 6 pkt)) },
          )
        → Change
    panics :
        (name_len old_len new_len : ℕ)
        → Announced name_len old_len new_len
        → LengthsFit name_len old_len new_len
        → is_valid_name (text_of (take name_len (drop 6 pkt))) ≡ true
        → length pkt < 6 + name_len + 1 + old_len + 1 + new_len
        → result ≡ none
        → Change

  module _ (name_len old_len new_len : ℕ) (at : Announced name_len old_len new_len)
      (fit : LengthsFit name_len old_len new_len) where
    abbrev name : Text
    name = text_of (take name_len (drop 6 pkt))

    abbrev new_slice : Option (List ℕ)
    new_slice =
        slice pkt (6 + name_len + 1 + old_len + 1) (6 + name_len + 1 + old_len + 1 + min new_len 16)

    there : 6 + name_len + 1 + old_len < length pkt
    there = get_elem?-some pkt (6 + name_len + 1 + old_len) new_len at.2

    long : ltb (length pkt) 6 ≡ false
    long = ground (arith, there)

    t1 : (ltb 16 name_len || leb (length pkt) (6 + name_len)) ≡ false
    t1 = ground (arith, there, fit.0)

    t2 : (ltb 16 old_len || leb (length pkt) (6 + name_len + 1 + old_len)) ≡ false
    t2 = ground (arith, there, fit.1)

    t3 : (ltb 8 new_len || ltb new_len 3) ≡ false
    t3 = ground (arith, fit.2, fit.3)

    read_name : read_text pkt 6 (6 + name_len) ≡ some name
    read_name =
        let span : 6 + name_len - 6 ≡ name_len = omega arith in
        read_text_inside pkt 6 (6 + name_len) (omega arith) (omega (arith, there))
        ∙ ap (λ n. some (text_of (take n (drop 6 pkt)))) span

    -- Behind the checks only the read of the new password is left.
    result-eq :
        is_valid_name name ≡ true
        → result ≡ (
            new_slice >>= λ pb. some (
              forwarded (
                  request 0x04 session_id
                  ++ (padded 16 (take name_len (drop 6 pkt))
                      ++ (padded 16 (take old_len (drop (6 + name_len + 1) pkt)) ++ padded 16 pb))),
              record sd { name = name },
            ))
    unfolding dispatch_change_pass
    result-eq valid =
        let e1 = slice_field pkt 6 name_len fit.0 (omega (arith, there)) in
        let e2 = slice_field pkt (6 + name_len + 1) old_len fit.1 (omega (arith, there)) in
        rw (long, at.0, ◌>>=◌)
          (rw (t1, at.1) (rw (t2, at.2) (rw (t3, read_name) (rw valid (rw (e1, e2) refl)))))

    cut-panics :
        is_valid_name name ≡ true
        → length pkt < 6 + name_len + 1 + old_len + 1 + new_len
        → result ≡ none
    cut-panics valid cut =
        result-eq valid
        ∙ rw
            (slice_cut pkt (6 + name_len + 1 + old_len + 1)
              (6 + name_len + 1 + old_len + 1 + min new_len 16) (ground (arith, cut, fit.3)))
            refl

    allowed : is_valid_name name ≡ true → Change
    allowed valid =
        elim (Bool-cases (ltb (length pkt) (6 + name_len + 1 + old_len + 1 + new_len))) [
          | inl cut ↦
              let less : length pkt < 6 + name_len + 1 + old_len + 1 + new_len =
                ground (arith, cut) in
              panics name_len old_len new_len at fit valid less (cut-panics valid less)
          | inr whole ↦
              let room : 6 + name_len + 1 + old_len + 1 + new_len ≤ length pkt =
                ground (arith, whole) in
              sent name_len old_len new_len at fit valid room (
                result-eq valid
                ∙ rw
                    (slice_field pkt (6 + name_len + 1 + old_len + 1) new_len (omega (arith, fit.3))
                      room)
                    refl)
        ]

    refusal : is_valid_name name ≡ false → Change
    refusal bad =
        let m = build_message_lem 0x03 (state.messages erruser) state.config.xor_key [] in
        refused name_len old_len new_len at fit bad m.0 m.1 (
          unfold dispatch_change_pass refuse in
          rw (long, at.0, ◌>>=◌)
            (rw (t1, at.1) (rw (t2, at.2) (rw (t3, read_name) (rw bad (rw m.1 refl))))))

    named : Change
    named = elim (Bool-cases (is_valid_name name)) [
      | inl valid ↦ allowed valid
      | inr bad ↦ refusal bad
    ]

  with_old :
      (name_len old_len : ℕ)
      → ltb (length pkt) 6 ≡ false
      → get_elem? pkt 5 ≡ some name_len
      → (ltb 16 name_len || leb (length pkt) (6 + name_len)) ≡ false
      → get_elem? pkt (6 + name_len) ≡ some old_len
      → (ltb 16 old_len || leb (length pkt) (6 + name_len + 1 + old_len)) ≡ false
      → Change
  with_old name_len old_len long e5 t1 e_old t2 =
      let (new_len, e_new) = get_elem?-lt pkt (6 + name_len + 1 + old_len) (ground (arith, t2)) in
      let at : Announced name_len old_len new_len = (e5, e_old, e_new) in
      elim (Bool-cases (ltb 8 new_len || ltb new_len 3)) [
        | inl off ↦
            new_off name_len old_len new_len at (ground (arith, t1)) (ground (arith, t2))
              (ground (arith, off))
              (unfold dispatch_change_pass in
                rw (long, e5, ◌>>=◌) (rw (t1, e_old) (rw (t2, e_new) (rw off refl))))
        | inr t3 ↦
            named name_len old_len new_len at
              (ground (arith, t1), ground (arith, t2), ground (arith, t3), ground (arith, t3))
      ]

  with_name :
      (name_len : ℕ)
      → ltb (length pkt) 6 ≡ false
      → get_elem? pkt 5 ≡ some name_len
      → (ltb 16 name_len || leb (length pkt) (6 + name_len)) ≡ false
      → Change
  with_name name_len long e5 t1 =
      let (old_len, e_old) = get_elem?-lt pkt (6 + name_len) (ground (arith, t1)) in
      elim (Bool-cases (ltb 16 old_len || leb (length pkt) (6 + name_len + 1 + old_len))) [
        | inl off ↦
            old_off name_len old_len e5 (ground (arith, t1)) e_old (ground (arith, off))
              (unfold dispatch_change_pass in rw (long, e5, ◌>>=◌) (rw (t1, e_old) (rw off refl)))
        | inr t2 ↦ with_old name_len old_len long e5 t1 e_old t2
      ]

  -- Every packet is dropped, refused, forwarded or a panic. It is dropped exactly if it is shorter than 6
  -- bytes, its name or its old password has more than 16 bytes or reaches its end, or the new password
  -- that it announces has less than 3 or more than 8 bytes. A name that is not valid is refused with the
  -- message for it. Else the name, the old and the new password of the packet are forwarded, each padded to 16
  -- bytes, and the name is kept; but a packet that ends within its new password makes the handler panic.
  pub dispatch_change_pass-Change : Change
  dispatch_change_pass-Change = elim (Bool-cases (ltb (length pkt) 6)) [
    | inl short ↦ too_short (ground (arith, short)) (unfold dispatch_change_pass in rw short refl)
    | inr long ↦
        let (name_len, e5) = get_elem?-lt pkt 5 (ground (arith, long)) in
        elim (Bool-cases (ltb 16 name_len || leb (length pkt) (6 + name_len))) [
          | inl off ↦
              name_off name_len e5 (ground (arith, off))
                (unfold dispatch_change_pass in rw (long, e5, ◌>>=◌) (rw off refl))
          | inr t1 ↦ with_name name_len long e5 t1
        ]
  ]
