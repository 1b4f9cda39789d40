-- ===== src/Tests/GameTests.antt =====
-- src/game on concrete inputs.
use yuri.Base.{
  ℕ, zero, suc, ◌^◌, ◌-◌, ◌+◌, ◌≡◌, refl, List, [], ◌∷◌, some, none, true, false, arith, inl, inr,
  ◌&&◌, if◌then◌else◌, ◌==◌,
}
use yuri.Base.Int.{ℤ, pos, negsuc, ◌-ℤ◌, ◌+ℤ◌, i32_add}
use yuri.Game.Registry.Keys.{same_key}
use yuri.Game.Registry.Slots.{Key, Slot, Distinct, any_slot, update_slots, claim_slots}
use yuri.Game.Registry.Player.{
  pc_readacctreg, pc_setacctreg, pc_readglobalreg, pc_setglobalreg, as_i32,
}
use yuri.Game.Registry.Stored.{room, pc_readacctreg-pc_setacctreg}
use yuri.Game.Registry.Lost.{pc_setglobalreg_lost}
use yuri.Game.Inventory.Item.{Item, Bag, ItemDb, slot_at, zeroed}
use yuri.Game.Inventory.Add.{pc_additem}
use yuri.Game.Inventory.Drop.{
  FloorItem, same_pile, pc_addtocurrent, visit_cell, dropped_slot, drop_slot, pc_dropitemmap, pile,
}
use yuri.Game.Inventory.Dropped.{pile-pc_dropitemmap}
use yuri.Game.Experience.{award, gained, raised, pc_givexp, pc_givexp-award}
use yuri.Game.Inventory.Blocked.{pc_additem_blocked}
use yuri.Game.Inventory.Space.{owned_all}
use yuri.Game.Inventory.Item.{first_slot, same_make}

abbrev lamp : Key
lamp = b'l' ∷ b'a' ∷ b'm' ∷ b'p' ∷ []

abbrev lamp_upper : Key
lamp_upper = b'L' ∷ b'A' ∷ b'M' ∷ b'P' ∷ []

abbrev door : Key
door = b'd' ∷ b'o' ∷ b'o' ∷ b'r' ∷ []

-- A slot with a door, and an empty one.
abbrev one_door : List (Slot ℤ)
one_door = record { str = door; val = pos 7 } ∷ record { str = []; val = pos 0 } ∷ []

abbrev one_text : List (Slot (List ℕ))
one_text = record { str = door; val = lamp } ∷ record { str = []; val = [] } ∷ []

-- The upper half of a number is cut off when it is stored.
as_i32_cut : (as_i32 (2 ^ 32 + 5) ≡ pos 5) × (as_i32 (2 ^ 32 - 1) ≡ negsuc 0)
unfolding as_i32
as_i32_cut = (refl, refl)

-- Case is ignored.
lamp_same : same_key lamp lamp_upper ≡ true
unfolding same_key
lamp_same = refl

lamp_filled : same_key lamp [] ≡ false
unfolding same_key
lamp_filled = refl

lamp_upper_filled : same_key lamp_upper [] ≡ false
unfolding same_key
lamp_upper_filled = refl

acctreg_example :
    (pc_readacctreg lamp_upper (pc_setacctreg lamp (pos 3) one_door).0 ≡ (
      if room 5000 lamp one_door && same_key lamp lamp_upper
      then (pos 3)
      else pc_readacctreg lamp_upper one_door))
    × ((pc_setacctreg lamp (pos 3) one_door).1 ≡ 0)
    × Distinct 5000 (pc_setacctreg lamp (pos 3) one_door).0
unfolding any_slot same_key
acctreg_example =
    pc_readacctreg-pc_setacctreg lamp lamp_upper (pos 3) one_door lamp_filled lamp_upper_filled
      (inr refl, (inl refl, tt))

-- There is room in the example.
room_there : room 50 lamp one_door ≡ true
unfolding room
room_there = refl

-- Slots that are all in use, and an empty one behind them.
abbrev crowd : ℕ → List (Slot ℤ)
crowd zero = record { str = []; val = pos 0 } ∷ []
crowd (suc n) = record { str = door; val = pos 7 } ∷ crowd n

pc_setglobalreg_lost_example :
    (pc_readglobalreg lamp (pc_setglobalreg lamp 3 (crowd 500)).0
      ≡ pc_readglobalreg lamp (crowd 500))
    × ((pc_setglobalreg lamp 3 (crowd 500)).1 ≡ (if room 5000 lamp (crowd 500) then 0 else 1))
pc_setglobalreg_lost_example = pc_setglobalreg_lost lamp lamp 3 (crowd 500) (unfold room in refl)

-- The write of the example reports success.
lost_code : (pc_setglobalreg lamp 3 (crowd 500)).1 ≡ 0
unfolding pc_setglobalreg update_slots same_key claim_slots
lost_code = refl

-- At most ten of each item, in one stack.
abbrev ten_each : ItemDb
ten_each = record { maxamount = λ id. pos 10; stackamount = λ id. pos 10 }

abbrev potion : ℕ → ℤ → Item
potion owner amount = record zeroed { id = 5; owner = owner; amount = amount }

-- The first slot holds so many potions of player 1, the second is empty.
abbrev potions : ℤ → Bag
potions n = record {
  inventory = potion 1 n ∷ zeroed ∷ [];
  equip = [];
  maxinv = 2;
  takeoffid = none;
}

pc_additem_blocked_example :
    pc_additem ten_each true 1000 (potion 2 (pos 1)) (potions (pos 10)) ≡ none
unfolding owned_all first_slot same_make ◌+ℤ◌
pc_additem_blocked_example =
    pc_additem_blocked ten_each true (potion 2 (pos 1)) (potions (pos 10)) 1 1000 refl refl refl
      refl (refl, (refl, tt)) tt refl refl (omega arith) refl

-- Potions of the player in a cell.
abbrev floor_potions : List FloorItem
floor_potions =
    record { bl_id = 9; contents = potion 1 (pos 4); lastamount = pos 0; looters = 3 ∷ [] } ∷ []

-- One potion is put to those that lie there, and their looters are forgotten.
one_merged :
    pc_dropitemmap (λ id. pos 0) 11 (pos 0) false (potions (pos 3)) floor_potions
    ≡ some (
      record (potions (pos 3)) { inventory = potion 1 (pos 2) ∷ zeroed ∷ [] },
      record { bl_id = 9; contents = potion 1 (pos 5); lastamount = pos 4; looters = [] } ∷ [],
    )
unfolding pc_dropitemmap drop_slot visit_cell pc_addtocurrent same_pile same_key dropped_slot ◌+ℤ◌
    ◌-ℤ◌ i32_add
one_merged = refl

-- The index behind the last slot of the bag is accepted, and panics where the array ends there.
behind_bag :
    pc_dropitemmap (λ id. pos 0) 11 (pos 2) false (record (potions (pos 3)) { maxinv = 2 }) []
    ≡ none
unfolding pc_dropitemmap
behind_bag = refl

pile-pc_dropitemmap_example :
    (b' : Bag) × (cell' : List FloorItem) × (pc_dropitemmap
        (λ id. pos 0)
        11
        (pos 0)
        false
        (potions (pos 3))
        floor_potions
      ≡ some (b', cell'))
    × ((slot_at 0 b'.inventory).amount +ℤ pile (potion 1 (pos 3)) cell'
        ≡ pos 3 +ℤ pile (potion 1 (pos 3)) floor_potions)
    × ((j : ℕ) → (0 == j) ≡ false → slot_at j b'.inventory ≡ slot_at j (potions (pos 3)).inventory)
pile-pc_dropitemmap_example =
    pile-pc_dropitemmap (λ id. pos 0) 11 0 false (potions (pos 3)) floor_potions (omega arith)
      (refl, tt) (unfold ◌+ℤ◌ in (refl, tt))

pc_givexp-award_example : pc_givexp (some []) 0 4294967290 3 10 ≡ award (some []) 0 4294967290 3 10
pc_givexp-award_example = pc_givexp-award (some []) 0 4294967290 3 10 (omega arith) (omega arith)

-- A product of 2 ^ 63 and more counts as negative: the experience wraps.
wrapped : pc_givexp none 0 4294967290 4294967295 4294967295 ≡ (4294967291, gained 1)
unfolding pc_givexp raised
wrapped = refl
