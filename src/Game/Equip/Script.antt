-- ===== src/Game/Equip/Script.antt =====
-- The second phases, `rust_pc_equipscript` and `rust_pc_unequipscript` of src/game/pc.rs, and
-- `rust_pc_unequip`. `none` is a panic, for an index beyond an array.
use yuri.Base.{
  ℕ, true, false, not, ◌&&◌, List, [], Option, none, some, if◌then◌else◌, ltb, leb, ◌==◌, length,
}
use yuri.Base.Buffers.{◌>>=◌}
use yuri.Base.Int.{ℤ, pos, negsuc, ◌-ℤ◌}
use yuri.Game.Walk.View.{same_int}
use yuri.Game.Inventory.Item.{Item, ItemDb, zeroed, slot_at, put_slot}
use yuri.Game.Inventory.Delete.{pc_delitem}
use yuri.Game.Inventory.Add.{pc_additem}
use yuri.Game.Equip.Wear.{Gear, Wearer, worn, eq_weap}

abbrev pub eq_left : ℤ
eq_left = pos 4

abbrev pub eq_right : ℤ
eq_right = pos 5

abbrev pub eq_subleft : ℤ
eq_subleft = pos 6

abbrev pub eq_subright : ℤ
eq_subright = pos 7

-- One of the four tests: for a slot, another one if the first is in use and the second is free.
abbrev pub if_only : Wearer → ℕ → ℕ → ℤ → ℤ → ℤ
if_only w full empty yes_slot no_slot =
    if not (worn full w == 0) && worn empty w == 0 then yes_slot else no_slot

-- The slot for an item that goes to a slot, in four steps.
unfoldable pub target_slot : Wearer → ℤ → ℤ
target_slot w ret =
    let r1 = if same_int ret eq_left then if_only w 4 5 eq_right eq_left else ret in
    let r2 = if same_int r1 eq_right then if_only w 5 4 eq_left eq_right else r1 in
    let r3 = if same_int r2 eq_subleft then if_only w 6 7 eq_subleft eq_subright else r2 in
    if same_int r3 eq_subright then if_only w 7 6 eq_subleft eq_subright else r3

-- A two-handed weapon's enchantment ends.
abbrev pub disenchanted : ℕ → Wearer → Wearer
disenchanted slot w =
    if slot == eq_weap && w.enchanted
    then record w { enchanted = false; flank = 0; backstab = 0 }
    else w

abbrev pub with_one : Item → Item
with_one item = record item { amount = pos 1 }

-- The slot is free: the item is copied, one is deleted from its slot of the inventory, `on_equip`, what the
-- hook does to the player, runs, and the amount in the slot is set.
unfoldable pub put_on : (Wearer → Wearer) → ℕ → Wearer → Wearer
unfolding pc_delitem
put_on on_equip slot w =
    let item = slot_at w.invslot w.bag.inventory in
    let bag' =
      pc_delitem (pos w.invslot) (pos 1)
        (record (w.bag) { equip = put_slot slot item w.bag.equip }) in
    let w' = disenchanted slot (record (on_equip (record w { bag = bag' })) { equipid = 0 }) in
    let last = slot_at slot w'.bag.equip in
    record w' { bag = record (w'.bag) { equip = put_slot slot (with_one last) w'.bag.equip } }

-- The slot is in use: `on_unequip`, what the hooks do to the player, runs with `takeoffid` set.
unfoldable pub ask_off : (Wearer → Wearer) → ℕ → Wearer → Wearer
ask_off on_unequip slot w =
    record (on_unequip (record w {
      bag = record (w.bag) { takeoffid = some slot };
      target = w.bl_id;
      attacker = w.bl_id;
    })) { equipid = 0 }

unfoldable pub equip_at : (Wearer → Wearer) → (Wearer → Wearer) → ℤ → Wearer → Option Wearer
unfolding put_on ask_off
equip_at on_unequip on_equip (negsuc n) w = none
equip_at on_unequip on_equip (pos slot) w =
    if leb (length w.bag.equip) slot
    then none
    else if not (worn slot w == 0)
    then some (ask_off on_unequip slot w)
    else if leb (length w.bag.inventory) w.invslot
    then none
    else some (put_on on_equip slot w)

-- `on_unequip` is what the hooks do that run where the slot is in use, `on_equip` what the one does
-- that runs where it is free.
unfoldable pub pc_equipscript :
    Gear → (Wearer → Wearer) → (Wearer → Wearer) → Wearer → Option Wearer
unfolding target_slot equip_at
pc_equipscript db on_unequip on_equip w =
    let ret = target_slot w (db.kind w.equipid -ℤ pos 3) in
    if not (same_int w.state (pos 0)) && same_int w.gm_level (pos 0)
    then some w
    else equip_at on_unequip on_equip ret w

-- What is returned: 1 if there is nothing to take off.
unfoldable pub pc_unequip : ℤ → Wearer → Wearer × ℕ
pc_unequip (negsuc i) w = (w, 1)
pc_unequip (pos i) w =
    if leb 15 i
    then (w, 1)
    else if worn i w == 0
    then (w, 1)
    else (record w { bag = record (w.bag) { takeoffid = some i } }, 0)

-- `takeoffid` is -1 afterwards.
abbrev pub taken_off : ℕ → Wearer → Wearer
taken_off slot w =
    let w' = disenchanted slot w in record w' { bag = record (w'.bag) { takeoffid = none } }

-- The player afterwards, and what `rust_pc_additem` put to the floor. `fuel` is for its loop.
unfoldable pub pc_unequipscript : ItemDb → ℕ → Wearer → Option (Wearer × List Item)
unfolding pc_delitem pc_additem
pc_unequipscript db fuel w = do
  slot ← w.bag.takeoffid
  if leb (length w.bag.equip) slot
      then none
      else (let it = slot_at slot w.bag.equip in
          let item = slot_at w.invslot w.bag.inventory in
          if ltb 0 w.equipid
          then (if leb (length w.bag.inventory) w.invslot then none else (do
            added ← pc_additem db true fuel it (
                pc_delitem (pos w.invslot) (pos 1)
                  (record (w.bag) { equip = put_slot slot item w.bag.equip }))
            some (
              taken_off slot (record w {
                bag = record (added.bag) {
                  equip =
                      put_slot slot (with_one (slot_at slot (added.bag).equip)) (added.bag).equip;
                };
              }),
              added.dropped,
            )))
          else if it.id == 0
          then some (w, [])
          else (do
            added ← pc_additem db true fuel it w.bag
            some (
              taken_off slot (record w {
                bag = record (added.bag) { equip = put_slot slot zeroed (added.bag).equip };
                target = w.bl_id;
                attacker = w.bl_id;
              }),
              added.dropped,
            )))
