-- ===== src/Game/Equip/Check.antt =====
-- What the checks of `rust_pc_canequipitem` keep: no two-handed weapon is worn with a shield.
use yuri.Base.{
  ℕ, ◌+◌, ◌<◌, ◌≡◌, ap₂, ◌∙◌, arith, zero, suc, Bool, true, false, not, ◌&&◌, if◌then◌else◌, ◌==◌,
  length,
}
use yuri.Base.Int.{pos}
use yuri.Game.Walk.View.{same_int}
use yuri.Game.Inventory.Item.{Item, slot_at, put_slot, slot-put}
use yuri.Game.Equip.Wear.{Gear, Wearer, eq_weap, eq_shield, worn, two_handed, pc_canequipitem}
use yuri.Game.Equip.Script.{with_one}

-- Something is worn in the shield's slot and a two-handed weapon in the weapon's.
abbrev pub clashes : Gear → ℕ → ℕ → Bool
clashes db weapon shield = not (shield == 0) && (not (weapon == 0) && two_handed db weapon)

-- The player with an item of the inventory in the slot of its kind.
abbrev pub wearing : ℕ → ℕ → Wearer → Wearer
wearing i slot w = record w {
  bag = record (w.bag) { equip = put_slot slot (with_one (slot_at i w.bag.inventory)) w.bag.equip };
}

-- Behind a chain of tests that each end in an error.
first_error :
    (a : Bool) (code rest : ℕ) → (code == 0) ≡ false → (if a then code else rest) ≡ 0 → a ≡ false
first_error a code rest nonzero h = ground (arith, nonzero, h)

module _ (db : Gear) (i : ℕ) (w : Wearer) (inside : i < w.bag.maxinv)
    (passed : pc_canequipitem db (pos i) w ≡ 0) where
  abbrev itemid : ℕ
  itemid = (slot_at i w.bag.inventory).id

  no_shield :
      (not (worn eq_weap w == 0)
        && (same_int (db.kind itemid) (pos 5) && two_handed db (worn eq_weap w)))
      ≡ false
  unfolding pc_canequipitem
  no_shield = ground (arith, inside, passed)

  no_weapon :
      (not (worn eq_shield w == 0) && (same_int (db.kind itemid) (pos 3) && two_handed db itemid))
      ≡ false
  unfolding pc_canequipitem
  no_weapon = ground (arith, inside, passed)

worn_after :
    (db : Gear) (i slot : ℕ) (w : Wearer)
    → slot < length w.bag.equip
    → clashes db (worn eq_weap (wearing i slot w)) (worn eq_shield (wearing i slot w))
      ≡ clashes db
          (if slot == eq_weap
            then with_one (slot_at i w.bag.inventory)
            else slot_at eq_weap w.bag.equip).id
          (if slot == eq_shield
            then with_one (slot_at i w.bag.inventory)
            else slot_at eq_shield w.bag.equip).id
worn_after db i slot w fits =
    let put = with_one (slot_at i w.bag.inventory) in
    ap₂ (λ (a b : Item). clashes db a.id b.id) (slot-put slot 0 put w.bag.equip fits)
      (slot-put slot 2 put w.bag.equip fits)

-- An item that passes the check is put into the slot of its kind, whatever was there: a player who wore no
-- two-handed weapon with a shield wears none with one afterwards. The slot of the inventory is among the first
-- `maxinv`, the kind is that of the slot, and there are 15 slots.
pub pc_canequipitem-clashes :
    (db : Gear) (i slot : ℕ) (w : Wearer)
    → i < w.bag.maxinv
    → slot < 15
    → length w.bag.equip ≡ 15
    → same_int (db.kind (slot_at i w.bag.inventory).id) (pos (slot + 3)) ≡ true
    → pc_canequipitem db (pos i) w ≡ 0
    → clashes db (worn eq_weap w) (worn eq_shield w) ≡ false
    → clashes db (worn eq_weap (wearing i slot w)) (worn eq_shield (wearing i slot w)) ≡ false
pc_canequipitem-clashes db i zero w inside fits all kind passed before =
    worn_after db i 0 w (omega arith) ∙ ground (arith, kind, no_weapon db i w inside passed)
pc_canequipitem-clashes db i (suc zero) w inside fits all kind passed before =
    worn_after db i 1 w (omega arith) ∙ before
pc_canequipitem-clashes db i (suc (suc zero)) w inside fits all kind passed before =
    worn_after db i 2 w (omega arith) ∙ ground (arith, kind, no_shield db i w inside passed)
pc_canequipitem-clashes db i (suc (suc (suc n))) w inside fits all kind passed before =
    let not_weap : (suc (suc (suc n)) == 0) ≡ false = ground arith in
    let not_shield : (suc (suc (suc n)) == 2) ≡ false = ground arith in
    worn_after db i (suc (suc (suc n))) w (omega arith) ∙ rw (not_weap, not_shield) before
