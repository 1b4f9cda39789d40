-- ===== src/Game/Inventory/Drop.antt =====
-- Items on the floor in src/game/pc.rs: `pc_dropitemmap`, `pc_dropitemfull`, and the callbacks that put an
-- item to one that lies in the cell. The cell is the list of its items, in the order in which they are
-- visited; scripts, the log and what the clients
-- see are left out. Amounts are `i32`, whose sums wrap around.
use yuri.Base.{
  ℕ, Bool, true, false, ◌&&◌, ◌||◌, not, List, [], ◌∷◌, Option, none, some, if◌then◌else◌, ◌==◌,
  ltb, leb, length,
}
use yuri.Base.Int.{ℤ, pos, negsuc, ◌+ℤ◌, ◌-ℤ◌, ltb_ℤ, leb_ℤ, i32_add}
use yuri.Config.{same_text}
use yuri.Game.Registry.Keys.{same_key}
use yuri.Game.Inventory.Item.{Item, Bag, zeroed, slot_at, put_slot}

pub record FloorItem : Type 0 where
  pub bl_id : ℕ
  pub contents : Item
  pub lastamount : ℤ
  pub looters : List ℕ

-- All that tells two piles apart agrees.
unfoldable pub same_pile : Item → Item → Bool
unfolding same_key
same_pile fl inv =
    fl.id == inv.id
    && (fl.owner == inv.owner
        && (same_key fl.real_name inv.real_name
            && (fl.custom_icon == inv.custom_icon
                && (fl.custom_icon_color == inv.custom_icon_color
                    && (fl.custom_look == inv.custom_look
                        && (fl.custom_look_color == inv.custom_look_color
                            && (same_text fl.note inv.note
                                && (fl.custom == inv.custom && fl.protected == inv.protected))))))))

-- `==` and `<` of C ints.
abbrev pub same_int : ℤ → ℤ → Bool
same_int a b = leb_ℤ a b && leb_ℤ b a

-- The item that lies down if it was not merged. `id` is that of the new block.
abbrev pub laid : ℕ → Item → ℕ → List FloorItem → List FloorItem
laid bl_id item def cell =
    if def == 0
    then record { bl_id = bl_id; contents = item; lastamount = pos 0; looters = [] } ∷ cell
    else cell

-- The slot behind the drop.
unfoldable pub dropped_slot : Bool → Item → Item
dropped_slot whole inv =
    let left = inv.amount -ℤ pos 1 in
    if whole || same_int left (pos 0) then zeroed else record inv { amount = left }

-- What lies down.
unfoldable pub dropped_item : Bool → Item → Item
dropped_item whole inv =
    if whole || same_int (inv.amount -ℤ pos 1) (pos 0) then inv else record inv { amount = pos 1 }

module _ (itemdb_dura : ℕ → ℤ) where
  -- The visit of an item on the floor, once `def` says that nothing was merged yet: the new `def` and the
  -- item.
  unfoldable pub pc_addtocurrent : Bool → Item → ℕ → FloorItem → ℕ × FloorItem
  unfolding same_pile
  pc_addtocurrent whole inv def fl =
      let free = record fl { looters = [] } in
      let more = if whole then inv.amount else pos 1 in
      if not (def == 0)
      then (def, fl)
      else if ltb_ℤ fl.contents.dura (itemdb_dura fl.contents.id)
      then (def, fl)
      else if same_pile fl.contents inv
      then (
        fl.bl_id,
        record free {
          lastamount = fl.contents.amount;
          contents = record fl.contents { amount = i32_add fl.contents.amount more };
        },
      )
      else (def, free)

  unfoldable pub visit_cell : Bool → Item → ℕ → List FloorItem → ℕ × List FloorItem
  unfolding pc_addtocurrent
  visit_cell whole inv def [] = (def, [])
  visit_cell whole inv def (fl ∷ cell) =
      let (def', fl') = pc_addtocurrent whole inv def fl in
      let (last, cell') = visit_cell whole inv def' cell in (last, fl' ∷ cell')

  -- The drop of a slot, where its item has an amount.
  unfoldable pub drop_slot : ℕ → Bool → Item → List FloorItem → Item × List FloorItem
  unfolding visit_cell dropped_slot dropped_item
  drop_slot bl_id whole inv cell =
      let (def, cell') =
        if same_int inv.dura (itemdb_dura inv.id) then visit_cell whole inv 0 cell else (0, cell) in
      (dropped_slot whole inv, laid bl_id (dropped_item whole inv) def cell')

  -- `none` is a panic: an index that is negative or behind the array.
  unfoldable pub pc_dropitemmap :
      ℕ → ℤ → Bool → Bag → List FloorItem → Option (Bag × List FloorItem)
  unfolding drop_slot
  pc_dropitemmap bl_id (negsuc i) whole b cell = none
  pc_dropitemmap bl_id (pos i) whole b cell =
      let inv = slot_at i b.inventory in
      let (slot, cell') = drop_slot bl_id whole inv cell in
      if ltb b.maxinv i
      then some (b, cell)
      else if leb (length b.inventory) i
      then none
      else if inv.id == 0
      then some (b, cell)
      else if leb_ℤ inv.amount (pos 0)
      then some (b, cell)
      else some (record b { inventory = put_slot i slot b.inventory }, cell')

  -- The same without a slot: the first item that agrees takes all.
  unfoldable pub pc_addtocurrent2 : Item → Bool → FloorItem → Bool × FloorItem
  unfolding same_pile
  pc_addtocurrent2 fl2 def fl =
      if def
      then (def, fl)
      else if same_pile fl.contents fl2
      then (
        true,
        record fl {
          contents = record fl.contents { amount = i32_add fl.contents.amount fl2.amount };
        },
      )
      else (def, fl)

  unfoldable pub visit_cell2 : Item → Bool → List FloorItem → Bool × List FloorItem
  unfolding pc_addtocurrent2
  visit_cell2 fl2 def [] = (def, [])
  visit_cell2 fl2 def (fl ∷ cell) =
      let (def', fl') = pc_addtocurrent2 fl2 def fl in
      let (last, cell') = visit_cell2 fl2 def' cell in (last, fl' ∷ cell')

  unfoldable pub pc_dropitemfull : ℕ → Item → List FloorItem → List FloorItem
  unfolding visit_cell2
  pc_dropitemfull bl_id item cell =
      let (merged, cell') =
        if same_int item.dura (itemdb_dura item.id)
        then visit_cell2 item false cell
        else (false, cell) in
      laid bl_id item (if merged then 1 else 0) cell'

-- How much of an item lies in the cell.
abbrev pub share : Item → Item → ℤ
share inv fl = if same_pile fl inv then fl.amount else pos 0

unfoldable pub pile : Item → List FloorItem → ℤ
pile inv [] = pos 0
pile inv (fl ∷ cell) = share inv fl.contents +ℤ pile inv cell
