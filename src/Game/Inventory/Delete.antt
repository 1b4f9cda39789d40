-- ===== src/Game/Inventory/Delete.antt =====
-- `pc_delitem` of src/game/pc.rs. The index and the amount are C ints.
use yuri.Base.{ℕ, ◌<◌, ◌≡◌, arith, length, false, ◌||◌, if◌then◌else◌, ◌==◌, leb}
use yuri.Base.Int.{ℤ, pos, negsuc, ◌-ℤ◌, leb_ℤ}
use yuri.Game.Inventory.Item.{Item, Bag, slot_at, put_slot, zeroed}
use yuri.Game.Inventory.Item.{slot-put}

-- What is left of a slot.
unfoldable pub taken_from : ℤ → Item → Item
taken_from amount inv =
    let left = inv.amount -ℤ amount in
    if inv.id == 0 || leb_ℤ amount (pos 0)
    then inv
    else if leb_ℤ inv.amount amount
    then zeroed
    else if leb_ℤ left (pos 0)
    then zeroed
    else record inv { amount = left }

unfoldable pub pc_delitem : ℤ → ℤ → Bag → Bag
unfolding taken_from
pc_delitem (negsuc i) amount b = b
pc_delitem (pos i) amount b =
    if leb b.maxinv i
    then b
    else record b { inventory = put_slot i (taken_from amount (slot_at i b.inventory)) b.inventory }

pub taken_used :
    (amount : ℤ) (inv : Item)
    → (inv.id == 0) ≡ false
    → leb_ℤ amount (pos 0) ≡ false
    → taken_from amount inv
      ≡ (if leb_ℤ inv.amount amount then zeroed else record inv { amount = inv.amount -ℤ amount })
unfolding taken_from ◌-ℤ◌
taken_used amount inv used positive = ground arith

-- Of a slot in use among the first `maxinv` of the array, a positive amount is taken away: the slot is
-- cleared if it holds no more than that, and else keeps the rest and everything else it holds; the
-- other slots stay.
pub slot_at-pc_delitem :
    (i j : ℕ) (amount : ℤ) (b : Bag)
    → i < b.maxinv
    → i < length b.inventory
    → ((slot_at i b.inventory).id == 0) ≡ false
    → leb_ℤ amount (pos 0) ≡ false
    → slot_at j (pc_delitem (pos i) amount b).inventory ≡ (
        if i == j
        then (if leb_ℤ (slot_at i b.inventory).amount amount
            then zeroed
            else record (slot_at i b.inventory) {
              amount = (slot_at i b.inventory).amount -ℤ amount;
            })
        else slot_at j b.inventory)
unfolding pc_delitem
slot_at-pc_delitem i j amount b inside there used positive =
    let e : taken_from amount (slot_at i b.inventory) ≡ (
        if leb_ℤ (slot_at i b.inventory).amount amount
        then zeroed
        else record (slot_at i b.inventory) { amount = (slot_at i b.inventory).amount -ℤ amount }) =
      taken_used amount (slot_at i b.inventory) used positive in
    ground
      (arith, inside, slot-put i j (taken_from amount (slot_at i b.inventory)) b.inventory there, e)
