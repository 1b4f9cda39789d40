-- ===== src/Login/Credentials.antt =====
-- Names and passwords in the packets of clients: what the handlers take from a packet, and that they
-- never panic.
use mathlib.Core.List.{append_assoc, append-nil}
use yuri.Base.{
  ℕ, zero, suc, ◌+◌, ◌-◌, ◌≤◌, ◌<◌, ◌≡◌, refl, sym, ap, ◌∙◌, Bool, true, false, ◌&&◌, inl, inr,
  List, [], ◌∷◌, ◌++◌, Option, none, some, arith, ltb, leb, length, take, drop, get_elem?,
  Bool-cases, take-append_self, drop-append_self, length-append, get_elem?-append_ge,
}
use yuri.Base.Buffers.{◌>>=◌, slice}
use yuri.Config.{Text}
use yuri.Login.Text.{
  text_of, is_valid_name, is_valid_password, every, is_alphabetic, is_alphanumeric,
  every-alphabetic, text_of-padded,
}
use yuri.Login.Message.{build_message_lem}
use yuri.Login.Client.{
  LoginState, SessionData, ignored, replied, Handled, refuse, read_text, with_credentials, erruser,
  errpass,
}

pub >>=-some {ℓ κ} :
    {A : Type ℓ} {B : Type κ} (m : Option A) (f : A → Option B) {b : B}
    → (m >>= f) ≡ some b
    → (a : A) × (m ≡ some a) × (f a ≡ some b)
>>=-some none f h = cc
>>=-some (some a) f h = (a, refl, h)

pub get_elem?-lt : (xs : List ℕ) (i : ℕ) → i < length xs → (a : ℕ) × (get_elem? xs i ≡ some a)
get_elem?-lt [] i h = absurd (omega (arith, h))
get_elem?-lt (x ∷ xs) zero h = (x, refl)
get_elem?-lt (x ∷ xs) (suc i) h = get_elem?-lt xs i (omega (arith, h))

pub read_text_inside :
    (pkt : List ℕ) (lo hi : ℕ)
    → lo ≤ hi
    → hi ≤ length pkt
    → read_text pkt lo hi ≡ some (text_of (take (hi - lo) (drop lo pkt)))
unfolding read_text
read_text_inside pkt lo hi p q = unfold slice in ground (arith, p, q)

pub refuse-replied :
    (state : LoginState) (sd : SessionData) (code : ℕ) (text : Text)
    → (p : List ℕ) × (refuse state sd code text ≡ some (replied p, sd))
unfolding refuse
refuse-replied state sd code text =
    let m = build_message_lem code text state.config.xor_key [] in (m.0, rw m.1 refl)

-- What comes of a packet that should hold a name and a password.
pub data Outcome (sd : SessionData) (r : Handled) (next : Text → Text → Handled) : Type 0 where
  dropped : r ≡ some (ignored, sd) → Outcome sd r next
  refused : (p : List ℕ) → r ≡ some (replied p, sd) → Outcome sd r next
  passed :
      (name pass : Text)
      → is_valid_name name ≡ true
      → is_valid_password pass ≡ true
      → r ≡ next name pass
      → Outcome sd r next

module _ (state : LoginState) (sd : SessionData) (pkt : List ℕ) (next : Text → Text → Handled) where
  abbrev result : Handled
  result = with_credentials state sd pkt next

  with_password :
      (name : Text) (name_len : ℕ)
      → ltb (length pkt) 6 ≡ false
      → get_elem? pkt 5 ≡ some name_len
      → ltb (length pkt) (6 + name_len + 1) ≡ false
      → read_text pkt 6 (6 + name_len) ≡ some name
      → is_valid_name name ≡ true
      → Outcome sd result next
  with_password name name_len long e5 fits en valid =
      let (pass_len, ep) = get_elem?-lt pkt (6 + name_len) (ground (arith, fits)) in
      let pass : Text = text_of (take pass_len (drop (7 + name_len) pkt)) in
      let span : 7 + name_len + pass_len - (7 + name_len) ≡ pass_len = omega arith in
      elim (Bool-cases (ltb (length pkt) (7 + name_len + pass_len))) [
        | inl short ↦ dropped (
            unfold with_credentials in
            rw (long, e5, ◌>>=◌) (rw (fits, en) (rw valid (rw ep (rw short refl)))))
        | inr room ↦
            let er : read_text pkt (7 + name_len) (7 + name_len + pass_len) ≡ some pass =
              read_text_inside pkt (7 + name_len) (7 + name_len + pass_len) (omega arith)
                (ground (arith, room))
              ∙ ap (λ n. some (text_of (take n (drop (7 + name_len) pkt)))) span in
            elim (Bool-cases (is_valid_password pass)) [
              | inl good ↦ passed name pass valid good (
                  unfold with_credentials in
                  rw (long, e5, ◌>>=◌)
                    (rw (fits, en) (rw valid (rw ep (rw (room, er) (rw good refl))))))
              | inr bad ↦
                  let r = refuse-replied state sd 0x05 (state.messages errpass) in
                  refused r.0 (
                    unfold with_credentials in
                    rw (long, e5, ◌>>=◌)
                      (rw (fits, en) (rw valid (rw ep (rw (room, er) (rw bad r.1))))))
            ]
      ]

  with_name :
      (name_len : ℕ)
      → ltb (length pkt) 6 ≡ false
      → get_elem? pkt 5 ≡ some name_len
      → ltb (length pkt) (6 + name_len + 1) ≡ false
      → Outcome sd result next
  with_name name_len long e5 fits =
      let name : Text = text_of (take name_len (drop 6 pkt)) in
      let span : 6 + name_len - 6 ≡ name_len = omega arith in
      let en : read_text pkt 6 (6 + name_len) ≡ some name =
        read_text_inside pkt 6 (6 + name_len) (omega arith) (ground (arith, fits))
        ∙ ap (λ n. some (text_of (take n (drop 6 pkt)))) span in
      elim (Bool-cases (is_valid_name name)) [
        | inl valid ↦ with_password name name_len long e5 fits en valid
        | inr bad ↦
            let r = refuse-replied state sd 0x03 (state.messages erruser) in
            refused r.0
              (unfold with_credentials in rw (long, e5, ◌>>=◌) (rw (fits, en) (rw bad r.1)))
      ]

  -- A packet is dropped, refused, or holds a valid name and a valid password that are handed on: no
  -- packet makes the check panic.
  pub with_credentials-Outcome : Outcome sd result next
  with_credentials-Outcome = elim (Bool-cases (ltb (length pkt) 6)) [
    | inl short ↦ dropped (unfold with_credentials in rw short refl)
    | inr long ↦
        let (name_len, e5) = get_elem?-lt pkt 5 (ground (arith, long)) in
        elim (Bool-cases (ltb (length pkt) (6 + name_len + 1))) [
          | inl short ↦ dropped (unfold with_credentials in rw (long, e5, ◌>>=◌) (rw short refl))
          | inr fits ↦ with_name name_len long e5 fits
        ]
  ]

and_right : (p q : Bool) → (p && q) ≡ true → q ≡ true
and_right true q h = h
and_right false q h = cc

not_ltb : (a b : ℕ) → b ≤ a → ltb a b ≡ false
not_ltb a b h = ground (arith, h)

pub valid_name_chars : (s : List ℕ) → is_valid_name s ≡ true → every is_alphanumeric s ≡ true
unfolding is_valid_name
valid_name_chars s h =
    every-alphabetic s (and_right (leb 3 (length s) && leb (length s) 12) (every is_alphabetic s) h)

pub valid_password_chars :
    (s : List ℕ) → is_valid_password s ≡ true → every is_alphanumeric s ≡ true
unfolding is_valid_password
valid_password_chars s h =
    and_right (leb 3 (length s) && leb (length s) 8) (every is_alphanumeric s) h

-- A client's packet: a header of five bytes, then a name and a password, each behind its length.
abbrev pub packet : (h0 h1 h2 h3 h4 : ℕ) (name pass rest : List ℕ) → List ℕ
packet h0 h1 h2 h3 h4 name pass rest =
    h0 ∷ h1 ∷ h2 ∷ h3 ∷ h4 ∷ length name ∷ (name ++ (length pass ∷ (pass ++ rest)))

-- A packet that holds a valid name and a valid password, each behind its length.
module _ (state : LoginState) (sd : SessionData) (h0 h1 h2 h3 h4 : ℕ) (name pass rest : List ℕ)
    (next : Text → Text → Handled) (name_valid : is_valid_name name ≡ true)
    (pass_valid : is_valid_password pass ≡ true) where
  abbrev pkt : List ℕ
  pkt = packet h0 h1 h2 h3 h4 name pass rest

  -- What stands before the password's length.
  before : List ℕ
  before = h0 ∷ h1 ∷ h2 ∷ h3 ∷ h4 ∷ length name ∷ name

  length-pkt : length pkt ≡ 6 + length name + 1 + length pass + length rest
  length-pkt =
      omega (arith, length-append name (length pass ∷ (pass ++ rest)), length-append pass rest)

  own_text : (s : List ℕ) → every is_alphanumeric s ≡ true → text_of s ≡ s
  own_text s h = ap text_of (sym (append-nil s)) ∙ text_of-padded s 0 h

  name_read : read_text pkt 6 (6 + length name) ≡ some name
  name_read =
      let span : 6 + length name - 6 ≡ length name = omega arith in
      read_text_inside pkt 6 (6 + length name) (omega arith) (omega (arith, length-pkt))
      ∙ ap (λ n. some (text_of (take n (name ++ (length pass ∷ (pass ++ rest)))))) span
      ∙ ap (λ t. some (text_of t))
          (take-append_self (length name) name (length pass ∷ (pass ++ rest)) refl)
      ∙ ap some (own_text name (valid_name_chars name name_valid))

  pass_len_read : get_elem? pkt (6 + length name) ≡ some (length pass)
  unfolding before
  pass_len_read =
      ap (get_elem? pkt) (omega arith) ∙ get_elem?-append_ge before (length pass ∷ (pass ++ rest)) 0

  behind : drop (7 + length name) pkt ≡ pass ++ rest
  unfolding before
  behind =
      ap (drop (7 + length name)) (sym (append_assoc before (length pass ∷ []) (pass ++ rest)))
      ∙ drop-append_self (7 + length name) (before ++ length pass ∷ []) (pass ++ rest)
          (omega (arith, length-append before (length pass ∷ [])))

  pass_read : read_text pkt (7 + length name) (7 + length name + length pass) ≡ some pass
  pass_read =
      let span : 7 + length name + length pass - (7 + length name) ≡ length pass = omega arith in
      read_text_inside pkt (7 + length name) (7 + length name + length pass) (omega arith)
        (omega (arith, length-pkt))
      ∙ ap (λ n. some (text_of (take n (drop (7 + length name) pkt)))) span
      ∙ ap (λ t. some (text_of (take (length pass) t))) behind
      ∙ ap (λ t. some (text_of t)) (take-append_self (length pass) pass rest refl)
      ∙ ap some (own_text pass (valid_password_chars pass pass_valid))

  pub with_credentials-packet : with_credentials state sd pkt next ≡ next name pass
  unfolding with_credentials
  with_credentials-packet =
      rw (not_ltb (length pkt) 6 (omega (arith, length-pkt)), ◌>>=◌)
        (rw (not_ltb (length pkt) (6 + length name + 1) (omega (arith, length-pkt)), name_read)
          (rw (name_valid, pass_len_read)
            (rw
              (
                not_ltb (length pkt) (7 + length name + length pass) (omega (arith, length-pkt)),
                pass_read,
              )
              (rw pass_valid refl))))
