-- ===== src/Login/Text.antt =====
-- How the login server reads texts from packets: `std::str::from_utf8(..).unwrap_or("")`, then
-- `trim_end_matches('\0')`; and the tests `is_valid_name` and `is_valid_password` of
-- src/servers/login/client.rs.
use yuri.Base.{
  ℕ, zero, suc, ◌≤◌, ◌≡◌, refl, ◌∙◌, arith, Bool, true, false, ◌&&◌, ◌||◌, List, [], ◌∷◌, ◌++◌,
  if◌then◌else◌, ltb, leb, ◌==◌, length, replicate, Bool-cases, inl, inr,
}

-- A continuation byte, in the range that the byte before allows.
abbrev within : ℕ → ℕ → ℕ → Bool
within lo hi b = leb lo b && leb b hi

-- Well-formed UTF-8, with `need` continuation bytes to come, the next from `lo` to `hi`.
unfoldable pub utf8_from : ℕ → ℕ → ℕ → List ℕ → Bool
utf8_from zero lo hi [] = true
utf8_from (suc need) lo hi [] = false
utf8_from (suc need) lo hi (b ∷ bs) =
    let rest = utf8_from need 0x80 0xBF bs in within lo hi b && rest
utf8_from zero lo hi (b ∷ bs) =
    let next = λ (need lo hi : ℕ). utf8_from need lo hi bs in
    if ltb b 0x80
    then next 0 0x80 0xBF
    else if within 0xC2 0xDF b
    then next 1 0x80 0xBF
    else if b == 0xE0
    then next 2 0xA0 0xBF
    else if b == 0xED
    then next 2 0x80 0x9F
    else if within 0xE1 0xEF b
    then next 2 0x80 0xBF
    else if b == 0xF0
    then next 3 0x90 0xBF
    else if within 0xF1 0xF3 b
    then next 3 0x80 0xBF
    else if b == 0xF4
    then next 3 0x80 0x8F
    else false

unfoldable pub is_utf8 : List ℕ → Bool
unfolding utf8_from
is_utf8 bs = utf8_from 0 0x80 0xBF bs

abbrev pub all_zero : List ℕ → Bool
all_zero [] = true
all_zero (b ∷ bs) = b == 0 && all_zero bs

-- `trim_end_matches('\0')`.
unfoldable pub trim_nul : List ℕ → List ℕ
trim_nul [] = []
trim_nul (b ∷ bs) = let rest = trim_nul bs in if b == 0 && all_zero bs then [] else b ∷ rest

unfoldable pub text_of : List ℕ → List ℕ
unfolding is_utf8 trim_nul
text_of bs = if is_utf8 bs then trim_nul bs else []

abbrev pub is_alphabetic : ℕ → Bool
is_alphabetic c = within b'A' b'Z' c || within b'a' b'z' c

abbrev pub is_alphanumeric : ℕ → Bool
is_alphanumeric c = is_alphabetic c || within b'0' b'9' c

abbrev pub every : (ℕ → Bool) → List ℕ → Bool
every p [] = true
every p (c ∷ cs) = p c && every p cs

-- A `char` beyond ASCII has only bytes that fail the tests.
unfoldable pub is_valid_name : List ℕ → Bool
is_valid_name s = leb 3 (length s) && leb (length s) 12 && every is_alphabetic s

unfoldable pub is_valid_password : List ℕ → Bool
is_valid_password s = leb 3 (length s) && leb (length s) 8 && every is_alphanumeric s

and_true : (p q : Bool) → (p && q) ≡ true → (p ≡ true) × (q ≡ true)
and_true true q h = (refl, h)
and_true false q h = cc

utf8-ascii : (b : ℕ) (bs : List ℕ) → ltb b 0x80 ≡ true → is_utf8 (b ∷ bs) ≡ is_utf8 bs
unfolding is_utf8
utf8-ascii b bs h = rw h refl

alphanumeric_ascii : (c : ℕ) → is_alphanumeric c ≡ true → ltb c 0x80 ≡ true
alphanumeric_ascii c h = ground arith

-- ASCII and zeros are well-formed.
utf8-padded :
    (s : List ℕ) (n : ℕ) → every is_alphanumeric s ≡ true → is_utf8 (s ++ replicate n 0) ≡ true
utf8-padded [] zero h = unfold is_utf8 in refl
utf8-padded [] (suc n) h = utf8-ascii 0 (replicate n 0) refl ∙ utf8-padded [] n h
utf8-padded (c ∷ s) n h =
    let p : (is_alphanumeric c ≡ true) × (every is_alphanumeric s ≡ true) = and_true _ _ h in
    utf8-ascii c (s ++ replicate n 0) (alphanumeric_ascii c p.0) ∙ utf8-padded s n p.1

all_zero-replicate : (n : ℕ) → all_zero (replicate n 0) ≡ true
all_zero-replicate zero = refl
all_zero-replicate (suc n) = all_zero-replicate n

trim_nul-padded :
    (s : List ℕ) (n : ℕ) → every is_alphanumeric s ≡ true → trim_nul (s ++ replicate n 0) ≡ s
unfolding trim_nul
trim_nul-padded [] zero h = refl
trim_nul-padded [] (suc n) h = rw (all_zero-replicate n) refl
trim_nul-padded (c ∷ s) n h = ground (arith, trim_nul-padded s n)

-- A name or password that is padded with zeros is read back.
pub text_of-padded :
    (s : List ℕ) (n : ℕ) → every is_alphanumeric s ≡ true → text_of (s ++ replicate n 0) ≡ s
unfolding text_of
text_of-padded s n h = rw (utf8-padded s n h) (trim_nul-padded s n h)

pub every-alphabetic : (s : List ℕ) → every is_alphabetic s ≡ true → every is_alphanumeric s ≡ true
every-alphabetic [] h = refl
every-alphabetic (c ∷ s) h = ground (arith, every-alphabetic s)

length-trim_nul : (bs : List ℕ) → length (trim_nul bs) ≤ length bs
unfolding trim_nul
length-trim_nul [] = omega arith
length-trim_nul (b ∷ bs) = ground (arith, length-trim_nul bs)

pub length-text_of : (bs : List ℕ) → length (text_of bs) ≤ length bs
unfolding text_of
length-text_of bs = elim (Bool-cases (is_utf8 bs)) [
  | inl h ↦ rw (text_of, h) (length-trim_nul bs)
  | inr h ↦ rw (text_of, h) (omega arith)
]
