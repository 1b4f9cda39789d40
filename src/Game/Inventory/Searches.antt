-- ===== src/Game/Inventory/Searches.antt =====
-- The loops over the slots that a player's inventory functions share, on slots of which none passes the
-- test, or one is written.
use yuri.Base.{
  ℕ, zero, suc, ◌<◌, ◌≡◌, refl, arith, Bool, true, false, ◌&&◌, List, [], ◌∷◌, none, some, ◌==◌,
  length, All, Bool-cases, inl, inr,
}
use yuri.Base.Int.{ℤ, pos, ◌+ℤ◌, +ℤ_parts, eq_of_parts}
use yuri.Game.Inventory.Item.{Item, slot_at, put_slot, sum_slots, first_slot}
use yuri.Game.Inventory.Space.{worn_like}

pub sum_slots-none :
    (n : ℕ) (p : Item → Bool) (xs : List Item)
    → All (λ x. p x ≡ false) xs
    → sum_slots n p xs ≡ pos 0
unfolding sum_slots
sum_slots-none zero p xs h = refl
sum_slots-none (suc n) p [] h = refl
sum_slots-none (suc n) p (x ∷ xs) h = rw h.0 (sum_slots-none n p xs h.1)

pub worn_like-none :
    (n : ℕ) (fl : Item) (equip inv : List Item)
    → All (λ e. (e.id == fl.id) ≡ false) equip
    → worn_like n fl equip inv ≡ pos 0
unfolding worn_like
worn_like-none zero fl equip inv h = refl
worn_like-none (suc n) fl [] inv h = refl
worn_like-none (suc n) fl (e ∷ equip) [] h = refl
worn_like-none (suc n) fl (e ∷ equip) (x ∷ inv) h = rw h.0 (worn_like-none n fl equip inv h.1)

pub first_slot-none :
    (n : ℕ) (p : Item → Bool) (xs : List Item)
    → All (λ x. p x ≡ false) xs
    → first_slot n p xs ≡ none
unfolding first_slot
first_slot-none zero p xs h = refl
first_slot-none (suc n) p [] h = refl
first_slot-none (suc n) p (x ∷ xs) h = rw (h.0, first_slot-none n p xs h.1) refl

pub first_slot-put :
    (n i : ℕ) (p : Item → Bool) (y : Item) (xs : List Item)
    → All (λ x. p x ≡ false) xs
    → p y ≡ true
    → i < n
    → i < length xs
    → first_slot n p (put_slot i y xs) ≡ some i
unfolding first_slot
first_slot-put zero i p y xs h hit l m = absurd (omega (arith, l))
first_slot-put (suc n) i p y [] h hit l m = absurd (omega (arith, m))
first_slot-put (suc n) zero p y (x ∷ xs) h hit l m = rw hit refl
first_slot-put (suc n) (suc i) p y (x ∷ xs) h hit l m =
    rw (h.0, first_slot-put n i p y xs h.1 hit (omega (arith, l)) (omega (arith, m))) refl

pub first_slot-and_true :
    (n : ℕ) (p : Item → Bool) (xs : List Item)
    → first_slot n (λ x. p x && true) xs ≡ first_slot n p xs
unfolding first_slot
first_slot-and_true zero p xs = refl
first_slot-and_true (suc n) p [] = refl
first_slot-and_true (suc n) p (x ∷ xs) = elim (Bool-cases (p x)) [
  | inl hit ↦ rw hit refl
  | inr miss ↦ rw (miss, first_slot-and_true n p xs) refl
]

-- A slot that does not count, and then holds nothing, adds nothing.
pub sum_slots-put :
    (n i : ℕ) (p : Item → Bool) (y : Item) (xs : List Item)
    → y.amount ≡ pos 0
    → p (slot_at i xs) ≡ false
    → sum_slots n p (put_slot i y xs) ≡ sum_slots n p xs
unfolding sum_slots
sum_slots-put zero i p y xs nothing out = refl
sum_slots-put (suc n) i p y [] nothing out = refl
sum_slots-put (suc n) zero p y (x ∷ xs) nothing out = elim (Bool-cases (p y)) [
  | inl counts ↦ rw (counts, out, nothing) (zero_plus (sum_slots n p xs))
  | inr off ↦ rw (off, out) refl
]
  where
    zero_plus : (a : ℤ) → pos 0 +ℤ a ≡ a
    zero_plus a = eq_of_parts _ _ (omega (arith, +ℤ_parts (pos 0) a))
sum_slots-put (suc n) (suc i) p y (x ∷ xs) nothing out =
    rw (sum_slots-put n i p y xs nothing out) refl
