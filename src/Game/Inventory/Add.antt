-- ===== src/Game/Inventory/Add.antt =====
-- `pc_additem` and `pc_additemnolog` of src/game/pc.rs. The loop runs on fuel, `none` when it is used
-- up; whether it ends is a question of its own.
use yuri.Base.{
  ℕ, zero, suc, Bool, true, not, ◌&&◌, List, [], ◌∷◌, Option, none, some, if◌then◌else◌, ◌==◌, ltb,
  leb,
}
use yuri.Base.Int.{ℤ, pos, negsuc, ◌+ℤ◌, ◌-ℤ◌, ltb_ℤ}
use yuri.Game.Inventory.Item.{Item, Bag, ItemDb, slot_at, put_slot}
use yuri.Game.Inventory.Space.{pc_isinvenspace, pc_isinvenitemspace}

-- The player and the item afterwards, and the items that went to the floor.
pub record Added : Type 0 where
  pub bag : Bag
  pub fl : Item
  pub dropped : List Item

-- The slot takes what describes the item, and so many of them more. Only `pc_additem`, with `noted`,
-- copies the note.
unfoldable pub take_over : Bool → ℤ → Item → Item → Item
take_over noted n fl inv = record {
  id = fl.id;
  owner = fl.owner;
  custom = fl.custom;
  time = fl.time;
  dura = fl.dura;
  amount = inv.amount +ℤ n;
  custom_look = fl.custom_look;
  custom_icon = fl.custom_icon;
  custom_look_color = fl.custom_look_color;
  custom_icon_color = fl.custom_icon_color;
  protected = fl.protected;
  note = if noted then fl.note else inv.note;
  real_name = fl.real_name;
}

abbrev pub is_nonzero : ℤ → Bool
is_nonzero (pos n) = not (n == 0)
is_nonzero (negsuc n) = true

-- The body of the loop: a part of the amount if not all of it fits.
unfoldable pub add_once : ItemDb → Bool → ℕ → Item → Bag → Bag × Item
unfolding pc_isinvenitemspace take_over
add_once db noted num fl b =
    let i = pc_isinvenitemspace db num fl b in
    let n = if ltb_ℤ i fl.amount then i else fl.amount in
    let inventory' = put_slot num (take_over noted n fl (slot_at num b.inventory)) b.inventory in
    (
      record b { inventory = inventory' },
      record fl { amount = if ltb_ℤ i fl.amount then fl.amount -ℤ i else pos 0 },
    )

unfoldable pub add_loop : ItemDb → Bool → ℕ → ℕ → Item → Bag → Option (Bag × Item × ℕ)
unfolding add_once pc_isinvenspace
add_loop db noted zero num fl b = none
add_loop db noted (suc fuel) num fl b =
    let w = add_once db noted num fl b in
    let num' = pc_isinvenspace db w.1 w.0 in
    let rest = add_loop db noted fuel num' w.1 w.0 in
    if is_nonzero w.1.amount && ltb num' b.maxinv then rest else some (w.0, w.1, num')

-- `pc_additem` if `noted`, else `pc_additemnolog`.
unfoldable pub pc_additem : ItemDb → Bool → ℕ → Item → Bag → Option Added
unfolding add_loop pc_isinvenspace
pc_additem db noted fuel fl b =
    let num = pc_isinvenspace db fl b in
    let run = add_loop db noted fuel num fl b in
    if fl.id == 0 && is_nonzero fl.amount
    then some (record { bag = b; fl = fl; dropped = [] })
    else if leb b.maxinv num
    then some (record { bag = b; fl = fl; dropped = fl ∷ [] })
    else elim run [
      | none ↦ none
      | some (b', fl', num') ↦ some (record {
        bag = b';
        fl = fl';
        dropped = if leb b.maxinv num' && is_nonzero fl'.amount then fl' ∷ [] else [];
      })
    ]
