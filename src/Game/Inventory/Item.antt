-- ===== src/Game/Inventory/Item.antt =====
-- `Item`, the fields of a player that the inventory functions of src/game/pc.rs use, and the loops
-- they share.
use yuri.Base.{
  ℕ, ◌<◌, ◌≡◌, ap, refl, arith, length, Bool-cases, Option-cases, inl, inr, zero, suc, Bool, true,
  ◌&&◌, List, [], ◌∷◌, Option, none, some, if◌then◌else◌, ◌==◌,
}
use yuri.Base.Int.{ℤ, pos, ◌+ℤ◌}
use yuri.Game.Registry.Keys.{same_key}

-- The fields that are copied or compared; `memset` clears them all.
pub record Item : Type 0 where
  pub id : ℕ
  pub owner : ℕ
  pub custom : ℕ
  pub time : ℕ
  pub dura : ℤ
  pub amount : ℤ
  pub custom_look : ℕ
  pub custom_icon : ℕ
  pub custom_look_color : ℕ
  pub custom_icon_color : ℕ
  pub protected : ℕ
  pub note : List ℕ
  pub real_name : List ℕ

abbrev pub zeroed : Item
zeroed = record {
  id = 0;
  owner = 0;
  custom = 0;
  time = 0;
  dura = pos 0;
  amount = pos 0;
  custom_look = 0;
  custom_icon = 0;
  custom_look_color = 0;
  custom_icon_color = 0;
  protected = 0;
  note = [];
  real_name = [];
}

-- The part of `MapSessionData`. `takeoffid` is `none` for -1.
pub record Bag : Type 0 where
  pub inventory : List Item
  pub equip : List Item
  pub maxinv : ℕ
  pub takeoffid : Option ℕ

-- `itemdb_maxamount` and `itemdb_stackamount`.
pub record ItemDb : Type 0 where
  pub maxamount : ℕ → ℤ
  pub stackamount : ℕ → ℤ

-- The slot at an index, cleared where the array ends.
abbrev pub slot_at : ℕ → List Item → Item
slot_at i [] = zeroed
slot_at zero (x ∷ xs) = x
slot_at (suc i) (x ∷ xs) = slot_at i xs

abbrev pub put_slot : ℕ → Item → List Item → List Item
put_slot i y [] = []
put_slot zero y (x ∷ xs) = y ∷ xs
put_slot (suc i) y (x ∷ xs) = x ∷ put_slot i y xs

pub put-put :
    (i : ℕ) (x y : Item) (items : List Item)
    → put_slot i y (put_slot i x items) ≡ put_slot i y items
put-put i x y [] = refl
put-put zero x y (z ∷ items) = refl
put-put (suc i) x y (z ∷ items) = ap (◌∷◌ z) (put-put i x y items)

-- The owner, the engraving and the looks agree.
unfoldable pub same_make : Item → Item → Bool
unfolding same_key
same_make inv fl =
    inv.owner == fl.owner
    && same_key inv.real_name fl.real_name
    && inv.custom_look == fl.custom_look
    && inv.custom_look_color == fl.custom_look_color
    && inv.custom_icon == fl.custom_icon
    && inv.custom_icon_color == fl.custom_icon_color

-- The amounts of the first slots that pass a test.
unfoldable pub sum_slots : ℕ → (Item → Bool) → List Item → ℤ
sum_slots zero p xs = pos 0
sum_slots (suc n) p [] = pos 0
sum_slots (suc n) p (x ∷ xs) = let rest = sum_slots n p xs in if p x then x.amount +ℤ rest else rest

-- The index of the first slot that passes a test, among the first `n`; `n` if there is none.
unfoldable pub first_slot : ℕ → (Item → Bool) → List Item → Option ℕ
first_slot zero p xs = none
first_slot (suc n) p [] = none
first_slot (suc n) p (x ∷ xs) =
    let rest = first_slot n p xs in
    if p x then some 0 else elim rest [ some i ↦ some (suc i) | none ↦ none ]

pub slot-put :
    (i j : ℕ) (y : Item) (xs : List Item)
    → i < length xs
    → slot_at j (put_slot i y xs) ≡ (if i == j then y else slot_at j xs)
slot-put i j y [] h = absurd (omega (arith, h))
slot-put zero zero y (x ∷ xs) h = refl
slot-put zero (suc j) y (x ∷ xs) h = ground arith
slot-put (suc i) zero y (x ∷ xs) h = ground arith
slot-put (suc i) (suc j) y (x ∷ xs) h = ground (arith, slot-put i j y xs)

-- The slot that is found passes the test.
pub first_slot_lem :
    (n : ℕ) (p : Item → Bool) (xs : List Item) (i : ℕ)
    → first_slot n p xs ≡ some i
    → (i < n) × (p (slot_at i xs) ≡ true)
unfolding first_slot
first_slot_lem zero p xs i h = cc
first_slot_lem (suc n) p [] i h = cc
first_slot_lem (suc n) p (x ∷ xs) i h = elim (Bool-cases (p x)) [
  | inl hit ↦ let e : i ≡ 0 = ground (arith, h, hit) in rw e (omega arith, hit)
  | inr miss ↦ elim (Option-cases (first_slot n p xs)) [
    | inl gone ↦ absurd (ground (arith, h, miss, gone))
    | inr (k, e1) ↦
        let e : i ≡ suc k = ground (arith, h, miss, e1) in
        let ih : (k < n) × (p (slot_at k xs) ≡ true) = first_slot_lem n p xs k e1 in
        rw e (omega (arith, ih.0), ih.1)
  ]
]
