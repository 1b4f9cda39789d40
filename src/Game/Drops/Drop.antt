-- ===== src/Game/Drops/Drop.antt =====
-- `mobdb_drops`, `rust_mob_dropitem` and `rust_mob_addtocurrent` of src/game/mob.rs. Memory is there, and
-- sums of amounts wrap around. What clients see is left out, and so is the order in which a cell keeps its items.
use yuri.Base.{
  ℕ, zero, suc, ◌+◌, ◌-◌, ◌*◌, Bool, not, ◌&&◌, List, [], ◌∷◌, ◌++◌, Option, none, some,
  if◌then◌else◌, ltb, leb, ◌==◌, replicate,
}
use yuri.Base.Int.{ℤ, pos, negsuc, ltb_ℤ, leb_ℤ, i32_add}
use yuri.Game.Ids.Search.{mob_start_num, floor_item_start_num}
use yuri.Game.Inventory.Item.{Item, zeroed}
use yuri.Game.Inventory.Drop.{FloorItem}

-- The player that `map_id2sd` finds for the attacker. `groupid` is the `usize`.
pub record Attacker : Type 0 where
  pub bl_id : ℕ
  pub group_count : ℤ
  pub groupid : ℕ

abbrev pub max_group_members : ℕ
max_group_members = 256

-- The entries of `groups` for the members from `z` on.
abbrev pub members : (ℕ → ℕ) → ℕ → ℕ → ℕ → List ℕ
members groups gid z zero = []
members groups gid z (suc n) = groups (gid * max_group_members + z) ∷ members groups gid (z + 1) n

-- How many of the members are read.
abbrev pub safe_count : ℤ → ℕ
safe_count (negsuc n) = 0
safe_count (pos n) = if ltb n max_group_members then n else max_group_members

-- The looters of what a monster drops; 0 for none.
unfoldable pub looters_for : (ℕ → ℕ) → Option Attacker → List ℕ
looters_for groups none = replicate max_group_members 0
looters_for groups (some a) =
    let n = safe_count a.group_count in
    if not (ltb_ℤ (pos 0) a.group_count)
    then a.bl_id ∷ replicate (max_group_members - 1) 0
    else if ltb a.groupid 256
    then members groups a.groupid 0 n ++ replicate (max_group_members - n) 0
    else replicate max_group_members 0

-- The visit of an item of the cell: `def`, and the item.
unfoldable pub mob_addtocurrent : Item → ℕ → FloorItem → ℕ × FloorItem
mob_addtocurrent fl2 def fl =
    if not (def == 0)
    then (def, fl)
    else if fl.contents.id == fl2.id
    then (
      1,
      record fl {
        contents = record (fl.contents) { amount = i32_add fl.contents.amount fl2.amount };
      },
    )
    else (def, fl)

unfoldable pub visit_drop : Item → ℕ → List FloorItem → ℕ × List FloorItem
unfolding mob_addtocurrent
visit_drop fl2 def [] = (def, [])
visit_drop fl2 def (fl ∷ cell) =
    let (def', fl') = mob_addtocurrent fl2 def fl in
    let (last, cell') = visit_drop fl2 def' cell in (last, fl' ∷ cell')

-- What is made of the arguments.
abbrev pub made : Item → Item
made item = record zeroed {
  id = item.id;
  amount = item.amount;
  dura = item.dura;
  protected = item.protected;
  owner = item.owner;
}

abbrev pub is_dropped : Item → Bool
is_dropped slot = not (slot.id == 0) && leb_ℤ (pos 1) slot.amount

abbrev pub emptied : Item → Item
emptied slot = record slot { id = 0; amount = pos 0; owner = 0; dura = pos 0; protected = 0 }

module _ (groups : ℕ → ℕ) (id2sd : ℕ → Option Attacker) where
  -- `attacker` is that of the block, where it is a monster that is there. `bl_id` is the new block's.
  unfoldable pub mob_dropitem : ℕ → Option ℕ → ℕ → Item → List FloorItem → List FloorItem
  unfolding visit_drop looters_for
  mob_dropitem blockid attacker bl_id item cell =
      let (def, cell') = visit_drop (made item) 0 cell in
      let by_mob = leb mob_start_num blockid && ltb blockid floor_item_start_num in
      let looters =
        looters_for groups
          (if by_mob then elim attacker [ some id ↦ id2sd id | none ↦ none ] else none) in
      if def == 0
      then record { bl_id = bl_id; contents = made item; lastamount = pos 0; looters = looters }
        ∷ cell'
      else cell'

  -- The loop over the slots: the slots, and the cell. `fresh` are the ids of the new blocks.
  unfoldable pub drop_loop :
      ℕ → ℕ → (ℕ → ℕ) → List Item → List FloorItem → List Item × List FloorItem
  unfolding mob_dropitem
  drop_loop blockid attacker fresh [] cell = ([], cell)
  drop_loop blockid attacker fresh (slot ∷ slots) cell =
      let goes = is_dropped slot in
      let cell1 = if goes then mob_dropitem blockid (some attacker) (fresh 0) slot cell else cell in
      let (slots', cell2) = drop_loop blockid attacker (λ n. fresh (suc n)) slots cell1 in
      ((if goes then emptied slot else slot) ∷ slots', cell2)

  -- The script for drops first does to the slots and the cell what `script` says.
  unfoldable pub mobdb_drops :
      (List Item → List FloorItem → List Item × List FloorItem)
      → ℕ
      → ℕ
      → (ℕ → ℕ)
      → List Item
      → List FloorItem
      → List Item × List FloorItem
  unfolding drop_loop
  mobdb_drops script blockid attacker fresh slots cell =
      let (slots', cell') = script slots cell in drop_loop blockid attacker fresh slots' cell'
