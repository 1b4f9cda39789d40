-- ===== src/Game/Equip/Wear.antt =====
-- What the equipment functions of src/game/pc.rs read and write: `rust_pc_isequip` and the checks of
-- `rust_pc_canequipitem`, `rust_pc_canequipstats` and `rust_pc_equipitem`.
use yuri.Base.{ℕ, Bool, false, not, ◌&&◌, ◌||◌, if◌then◌else◌, leb, ◌==◌}
use yuri.Base.Int.{ℤ, pos, negsuc, ltb_ℤ, leb_ℤ}
use yuri.Game.Walk.View.{same_int}
use yuri.Game.Inventory.Item.{Bag, slot_at}

-- `itemdb_*`, which are C functions.
pub record Gear : Type 0 where
  pub look : ℕ → ℤ
  pub kind : ℕ → ℤ
  pub level : ℕ → ℤ
  pub mightreq : ℕ → ℤ
  pub sex : ℕ → ℤ
  pub vita : ℕ → ℤ
  pub mana : ℕ → ℤ

-- The part of `MapSessionData`. `enchanted` says whether that field is above 1.
pub record Wearer : Type 0 where
  pub bag : Bag
  pub bl_id : ℕ
  pub state : ℤ
  pub gm_level : ℤ
  pub level : ℤ
  pub might : ℤ
  pub sex : ℤ
  pub max_hp : ℕ
  pub max_mp : ℕ
  pub equipid : ℕ
  pub invslot : ℕ
  pub target : ℕ
  pub attacker : ℕ
  pub enchanted : Bool
  pub flank : ℕ
  pub backstab : ℕ

abbrev pub eq_weap : ℕ
eq_weap = 0

abbrev pub eq_shield : ℕ
eq_shield = 2

abbrev pub itm_weap : ℤ
itm_weap = pos 3

abbrev pub itm_shield : ℤ
itm_shield = pos 5

-- The item in an equipment slot, 0 for none.
abbrev pub worn : ℕ → Wearer → ℕ
worn i w = (slot_at i w.bag.equip).id

unfoldable pub pc_isequip : ℤ → Wearer → ℕ
pc_isequip (negsuc i) w = 0
pc_isequip (pos i) w = if leb 15 i then 0 else worn i w

-- A weapon that takes both hands.
abbrev pub two_handed : Gear → ℕ → Bool
two_handed db id = leb_ℤ (pos 10000) (db.look id) && leb_ℤ (db.look id) (pos 29999)

-- `MAP_ERRITM*`, or 0.
unfoldable pub pc_canequipitem : Gear → ℤ → Wearer → ℕ
unfolding pc_isequip
pc_canequipitem db (negsuc i) w = 0
pc_canequipitem db (pos i) w =
    let itemid = (slot_at i w.bag.inventory).id in
    if leb w.bag.maxinv i
    then 0
    else if not (pc_isequip (pos eq_weap) w == 0)
        && (same_int (db.kind itemid) itm_shield && two_handed db (worn eq_weap w))
    then 11
    else if not (pc_isequip (pos eq_shield) w == 0)
        && (same_int (db.kind itemid) itm_weap && two_handed db itemid)
    then 11
    else if ltb_ℤ w.level (db.level itemid)
    then 2
    else if ltb_ℤ w.might (db.mightreq itemid)
    then 3
    else if not (same_int w.sex (db.sex itemid)) && not (same_int (db.sex itemid) (pos 2))
    then 6
    else 0

-- A negative value whose size is above a limit.
abbrev pub takes_too_much : ℤ → ℕ → Bool
takes_too_much (pos n) limit = false
takes_too_much (negsuc n) limit = leb limit n

unfoldable pub pc_canequipstats : Gear → ℕ → Wearer → ℕ
pc_canequipstats db id w =
    if takes_too_much (db.vita id) w.max_hp
    then 0
    else if takes_too_much (db.mana id) w.max_mp
    then 0
    else 1

-- What the player is told, or that the hooks run.
pub data Reply : Type 0 where
  silent spirit mounted transformed not_owned too_low hooks : Reply
  map_msg : (code : ℕ) → Reply

-- What a state that forbids it says.
abbrev pub state_reply : ℤ → Reply
state_reply state =
    if same_int state (pos 1)
    then spirit
    else if same_int state (pos 3)
    then mounted
    else if same_int state (pos 4)
    then transformed
    else silent

unfoldable pub pc_equipitem : Gear → ℤ → Wearer → Wearer × Reply
unfolding pc_canequipitem pc_canequipstats
pc_equipitem db (negsuc i) w = (w, silent)
pc_equipitem db (pos i) w =
    let item = slot_at i w.bag.inventory in
    let ret = pc_canequipitem db (pos i) w in
    if leb w.bag.maxinv i
    then (w, silent)
    else if item.id == 0
    then (w, silent)
    else if not (same_int w.state (pos 0)) && same_int w.gm_level (pos 0)
    then (w, state_reply w.state)
    else if not (item.owner == 0) && not (item.owner == w.bl_id)
    then (w, not_owned)
    else if not (ret == 0)
    then (w, map_msg ret)
    else if ltb_ℤ (db.kind item.id) (pos 3) || ltb_ℤ (pos 17) (db.kind item.id)
    then (w, silent)
    else if pc_canequipstats db item.id w == 0
    then (w, too_low)
    else (record w { equipid = item.id; invslot = i }, hooks)
