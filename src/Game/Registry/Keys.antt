-- ===== src/Game/Registry/Keys.antt =====
-- Keys are compared without the case of ASCII letters: `libc::strcasecmp(a, b) == 0`, and
-- `eq_ignore_ascii_case`.
use yuri.Base.{
  ℕ, ◌+◌, ◌≡◌, refl, ap, ◌∙◌, sym, Bool, true, false, ◌&&◌, List, [], ◌∷◌, map, arith,
  if◌then◌else◌, leb, ◌==◌,
}

unfoldable pub lower : ℕ → ℕ
lower c = if leb b'A' c && leb c b'Z' then c + 32 else c

unfoldable pub same_bytes : List ℕ → List ℕ → Bool
same_bytes [] [] = true
same_bytes [] (y ∷ ys) = false
same_bytes (x ∷ xs) [] = false
same_bytes (x ∷ xs) (y ∷ ys) = x == y && same_bytes xs ys

unfoldable pub same_key : List ℕ → List ℕ → Bool
unfolding same_bytes lower
same_key a b = same_bytes (map lower a) (map lower b)

same_bytes_refl : (a : List ℕ) → same_bytes a a ≡ true
unfolding same_bytes
same_bytes_refl [] = refl
same_bytes_refl (x ∷ a) = ground (arith, same_bytes_refl a)

same_bytes-eq : (a b : List ℕ) → same_bytes a b ≡ true → a ≡ b
unfolding same_bytes
same_bytes-eq [] [] h = refl
same_bytes-eq [] (y ∷ b) h = cc
same_bytes-eq (x ∷ a) [] h = cc
same_bytes-eq (x ∷ a) (y ∷ b) h = ground (arith, same_bytes-eq a b)

pub same_key_refl : (a : List ℕ) → same_key a a ≡ true
same_key_refl a = unfold same_key in same_bytes_refl (map lower a)

-- A key may be put for one that is the same.
pub same_key-congr : (a b c : List ℕ) → same_key a b ≡ true → same_key a c ≡ same_key b c
same_key-congr a b c h =
    unfold same_key in
    ap (λ t. same_bytes t (map lower c))
      (same_bytes-eq (map lower a) (map lower b) (unfold same_key in h))

pub same_key_sym : (a b : List ℕ) → same_key a b ≡ true → same_key b a ≡ true
same_key_sym a b h = sym (same_key-congr a b a h) ∙ same_key_refl a
