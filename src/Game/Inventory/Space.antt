-- ===== src/Game/Inventory/Space.antt =====
-- `pc_isinvenspace` and `pc_isinvenitemspace` of src/game/pc.rs. The item carries the arguments `id`,
-- `owner`, `engrave` and the four looks, as its callers pass them.
use yuri.Base.{
  ℕ, ◌<◌, ◌≡◌, ◌⊎◌, refl, arith, Option-cases, Bool-cases, subst, inl, inr, zero, suc, Bool, true,
  false, not, ◌&&◌, ◌||◌, List, [], ◌∷◌, Option, none, some, if◌then◌else◌, ◌==◌,
}
use yuri.Base.Int.{ℤ, pos, ◌+ℤ◌, ◌-ℤ◌, ltb_ℤ, leb_ℤ}
use yuri.Game.Registry.Keys.{same_key}
use yuri.Game.Inventory.Item.{
  Item, Bag, ItemDb, slot_at, same_make, sum_slots, first_slot, first_slot_lem,
}

-- The equipment slots that count: their id agrees, and the make of the inventory slot at the same
-- index, which is what the source compares.
unfoldable pub worn_like : ℕ → Item → List Item → List Item → ℤ
worn_like zero fl equip inv = pos 0
worn_like (suc n) fl [] inv = pos 0
worn_like (suc n) fl (e ∷ equip) [] = pos 0
worn_like (suc n) fl (e ∷ equip) (x ∷ inv) =
    let rest = worn_like n fl equip inv in
    if e.id == fl.id && same_make x fl then pos 1 +ℤ rest else rest

unfoldable pub owned_like : Item → Bag → ℤ
unfolding sum_slots worn_like same_make
owned_like fl b =
    sum_slots b.maxinv (λ inv. inv.id == fl.id && same_make inv fl) b.inventory
    +ℤ worn_like 14 fl b.equip b.inventory

-- The slot to which an item can be added.
unfoldable pub stackable : ItemDb → Item → Item → Bool
unfolding same_make
stackable db fl inv = inv.id == fl.id && ltb_ℤ inv.amount (db.stackamount fl.id) && same_make inv fl

-- A slot to stack on, else an empty one, else `maxinv`.
abbrev pub found : Option ℕ → Option ℕ → ℕ → ℕ
found (some i) free maxinv = i
found none (some i) maxinv = i
found none none maxinv = maxinv

unfoldable pub pc_isinvenspace : ItemDb → Item → Bag → ℕ
unfolding owned_like first_slot stackable
pc_isinvenspace db fl b =
    if ltb_ℤ (pos 0) (db.maxamount fl.id)
    then (let under_cap = ltb_ℤ (owned_like fl b) (db.maxamount fl.id) in
        found (first_slot b.maxinv (λ inv. stackable db fl inv && under_cap) b.inventory)
          (first_slot b.maxinv (λ inv. inv.id == 0 && under_cap) b.inventory) b.maxinv)
    else found (first_slot b.maxinv (λ inv. stackable db fl inv) b.inventory)
        (first_slot b.maxinv (λ inv. inv.id == 0) b.inventory) b.maxinv

-- The equipment slots with the id, none of them while one of that id is taken off.
unfoldable pub worn_all : ℕ → ℕ → Option ℕ → List Item → List Item → ℤ
worn_all zero id takeoffid all equip = pos 0
worn_all (suc n) id takeoffid all [] = pos 0
worn_all (suc n) id takeoffid all (e ∷ equip) =
    let rest = worn_all n id takeoffid all equip in
    if e.id == id && elim takeoffid [ none ↦ true | some t ↦ not ((slot_at t all).id == id) ]
    then pos 1 +ℤ rest
    else rest

unfoldable pub owned_all : Item → Bag → ℤ
unfolding sum_slots worn_all
owned_all fl b =
    sum_slots b.maxinv (λ inv. inv.id == fl.id) b.inventory
    +ℤ worn_all 14 fl.id b.takeoffid b.equip b.equip

-- The slot holds another item, or one of another owner or name.
unfoldable pub differs : Item → Item → Bool
unfolding same_key
differs fl inv =
    not (inv.id == fl.id)
    || not (inv.owner == fl.owner)
    || not (same_key inv.real_name fl.real_name)

unfoldable pub pc_isinvenitemspace : ItemDb → ℕ → Item → Bag → ℤ
unfolding owned_all differs
pc_isinvenitemspace db num fl b =
    let inv = slot_at num b.inventory in
    let left = db.maxamount fl.id -ℤ owned_all fl b in
    if ltb_ℤ (pos 0) (db.maxamount fl.id)
    then (if inv.id == 0 && leb_ℤ (db.stackamount fl.id) left
        then db.stackamount fl.id
        else if differs fl inv
        then pos 0
        else left)
    else (if inv.id == 0
        then db.stackamount fl.id
        else if differs fl inv
        then pos 0
        else db.stackamount fl.id -ℤ inv.amount)

and_true : (p q : Bool) → (p && q) ≡ true → (p ≡ true) × (q ≡ true)
and_true true q h = (refl, h)
and_true false q h = cc

-- The slot that is found passes one of the two tests.
found_lem :
    (p q : Item → Bool) (n : ℕ) (xs : List Item)
    → found (first_slot n p xs) (first_slot n q xs) n < n
    → (p (slot_at (found (first_slot n p xs) (first_slot n q xs) n) xs) ≡ true)
      ⊎ (q (slot_at (found (first_slot n p xs) (first_slot n q xs) n) xs) ≡ true)
found_lem p q n xs h = elim (Option-cases (first_slot n p xs)) [
  | inr (i, e) ↦ rw e (inl (first_slot_lem n p xs i e).1)
  | inl e ↦ elim (Option-cases (first_slot n q xs)) [
    | inr (i, e1) ↦ rw (e, e1) (inr (first_slot_lem n q xs i e1).1)
    | inl e1 ↦ absurd (full (first_slot n p xs) (first_slot n q xs) e e1 h)
  ]
]
  where
    full : (u v : Option ℕ) → u ≡ none → v ≡ none → found u v n < n → ⊥
    full (some x) v eu ev h = cc
    full none (some x) eu ev h = cc
    full none none eu ev h = omega (arith, h)

pub capped_space :
    (db : ItemDb) (fl : Item) (b : Bag) (under_cap : Bool)
    → ltb_ℤ (pos 0) (db.maxamount fl.id) ≡ true
    → ltb_ℤ (owned_like fl b) (db.maxamount fl.id) ≡ under_cap
    → pc_isinvenspace db fl b
      ≡ found
          (first_slot b.maxinv (λ inv. stackable db fl inv && under_cap) b.inventory)
          (first_slot b.maxinv (λ inv. inv.id == 0 && under_cap) b.inventory)
          b.maxinv
unfolding pc_isinvenspace
capped_space db fl b under_cap capped e = rw (capped, e) refl

free_space :
    (db : ItemDb) (fl : Item) (b : Bag)
    → ltb_ℤ (pos 0) (db.maxamount fl.id) ≡ false
    → pc_isinvenspace db fl b
      ≡ found
          (first_slot b.maxinv (λ inv. stackable db fl inv) b.inventory)
          (first_slot b.maxinv (λ inv. inv.id == 0) b.inventory)
          b.maxinv
unfolding pc_isinvenspace
free_space db fl b uncapped = rw uncapped refl

⊎-map : {A B C D : Type 0} → (A → C) → (B → D) → A ⊎ B → C ⊎ D
⊎-map f g (inl a) = inl (f a)
⊎-map f g (inr b) = inr (g b)

-- No slot is found under a test that fails.
never :
    (p q : Item → Bool) (n : ℕ) (xs : List Item)
    → found (first_slot n (λ x. p x && false) xs) (first_slot n (λ x. q x && false) xs) n < n
    → ⊥
never p q n xs h = elim (found_lem (λ x. p x && false) (λ x. q x && false) n xs h) [
  | inl t ↦ false≢true (and_true _ _ t).1
  | inr t ↦ false≢true (and_true _ _ t).1
]
  where
    false≢true : false ≡ true → ⊥
    false≢true t = cc

-- Where `pc_isinvenspace` gives an index below `maxinv`, the slot there is empty, or holds the item in
-- the same make and less of it than a stack takes; and an item with a cap is owned in that make below
-- the cap.
pub pc_isinvenspace_lem :
    (db : ItemDb) (fl : Item) (b : Bag)
    → pc_isinvenspace db fl b < b.maxinv
    → ((stackable db fl (slot_at (pc_isinvenspace db fl b) b.inventory) ≡ true)
        ⊎ (((slot_at (pc_isinvenspace db fl b) b.inventory).id == 0) ≡ true))
      × ((ltb_ℤ (pos 0) (db.maxamount fl.id) ≡ false)
          ⊎ (ltb_ℤ (owned_like fl b) (db.maxamount fl.id) ≡ true))
pc_isinvenspace_lem db fl b h = elim (Bool-cases (ltb_ℤ (pos 0) (db.maxamount fl.id))) [
  | inr uncapped ↦
      let e = free_space db fl b uncapped in
      rw e (
        found_lem (λ inv. stackable db fl inv) (λ inv. inv.id == 0) b.maxinv b.inventory
            (subst (λ x. x < b.maxinv) e h),
        inl uncapped,
      )
  | inl capped ↦ elim (Bool-cases (ltb_ℤ (owned_like fl b) (db.maxamount fl.id))) [
    | inl under ↦
        let e = capped_space db fl b true capped under in
        rw e (
          ⊎-map (λ t. (and_true _ _ t).0) (λ t. (and_true _ _ t).0)
              (found_lem (λ inv. stackable db fl inv && true) (λ inv. inv.id == 0 && true) b.maxinv
                b.inventory (subst (λ x. x < b.maxinv) e h)),
          inr under,
        )
    | inr over ↦
        let e = capped_space db fl b false capped over in
        absurd (
          never (stackable db fl) (λ inv. inv.id == 0) b.maxinv b.inventory
            (subst (λ x. x < b.maxinv) e h))
  ]
]
