-- ===== src/Game/Walk/Mob.antt =====
-- The movement functions of src/game/mob.rs. A block list is the list of its entries; what the C code
-- answers about a cell (`clif_object_canmove`, `clif_object_canmove_from`, `map_canmove`, the NPCs of a
-- cell) is a parameter of the map.
use yuri.Base.{
  ℕ, ◌+◌, ◌-◌, ◌*◌, ◌/◌, Bool, true, false, not, ◌&&◌, ◌||◌, List, [], ◌∷◌, Option, none, some,
  if◌then◌else◌, ltb, leb, ◌==◌,
}
use yuri.Base.Int.{ℤ, pos, negsuc, ◌+ℤ◌, ◌-ℤ◌, ltb_ℤ, leb_ℤ, pos_part}
use yuri.Game.Walk.View.{View, same_int, viewport_delta}

-- An entry of `block_mob`; `mob_dead` is 1.
pub record Creature : Type 0 where
  pub id : ℕ
  pub x : ℕ
  pub y : ℕ
  pub state : ℕ

-- An entry of `block`.
pub record Occupant : Type 0 where
  pub is_pc : Bool
  pub x : ℕ
  pub y : ℕ
  pub state : ℤ
  pub gm_level : ℤ

-- The part of `MapData` that a step reads. `npcs` are the subtypes of the NPCs in a cell.
pub record Map : Type 0 where
  pub xs : ℕ
  pub ys : ℕ
  pub bxs : ℕ
  pub bys : ℕ
  pub show_ghosts : ℕ
  pub warp : ℕ → List (ℤ × ℤ)
  pub block_mob : ℕ → List Creature
  pub block : ℕ → List Occupant
  pub npcs : ℤ → ℤ → List ℕ
  pub object_canmove : ℤ → ℤ → ℤ → Bool
  pub object_canmove_from : ℤ → ℤ → ℤ → Bool
  pub canmove : ℤ → ℤ → ℤ

-- The part of `MobSpawnData`.
pub record Mob : Type 0 where
  pub id : ℕ
  pub x : ℕ
  pub y : ℕ
  pub bx : ℕ
  pub by_ : ℕ
  pub side : ℤ
  pub canmove : ℕ
  pub target : ℕ

abbrev pub block_size : ℕ
block_size = 8

abbrev pub on_list : ℤ → ℤ → List (ℤ × ℤ) → Bool
on_list dx dy [] = false
on_list dx dy ((x, y) ∷ rest) = same_int x dx && same_int y dy || on_list dx dy rest

-- A negative coordinate is beyond the map as a `usize`.
unfoldable pub warp_at : Map → ℤ → ℤ → Bool
warp_at slot (negsuc dx) dy = false
warp_at slot (pos dx) (negsuc dy) = false
warp_at slot (pos dx) (pos dy) =
    if leb slot.xs dx || leb slot.ys dy
    then false
    else on_list (pos dx) (pos dy) (slot.warp (dx / block_size + dy / block_size * slot.bxs))

-- Whether one of the list stands in the cell and blocks.
abbrev pub mob_in : ℕ → ℕ → ℕ → List Creature → Bool
mob_in id x y [] = false
mob_in id x y (m2 ∷ rest) =
    m2.x == x && m2.y == y && not (m2.state == 1) && not (m2.id == id) || mob_in id x y rest

abbrev pub is_passable : ℕ → Occupant → Bool
is_passable show_ghosts sd =
    not (show_ghosts == 0) && same_int sd.state (pos 1)
    || same_int sd.state (negsuc 0)
    || leb_ℤ (pos 50) sd.gm_level

abbrev pub pc_in : ℕ → ℕ → ℕ → List Occupant → Bool
pc_in show_ghosts x y [] = false
pc_in show_ghosts x y (sd ∷ rest) =
    sd.is_pc && sd.x == x && sd.y == y && not (is_passable show_ghosts sd)
    || pc_in show_ghosts x y rest

-- The cell's block, if there is one: whether one of its list blocks.
unfoldable pub in_block : Map → (ℕ → ℕ → ℕ → Bool) → ℤ → ℤ → Bool
in_block slot test (negsuc x) y = false
in_block slot test (pos x) (negsuc y) = false
in_block slot test (pos x) (pos y) =
    if leb slot.bxs (x / block_size) || leb slot.bys (y / block_size)
    then false
    else test (x / block_size + y / block_size * slot.bxs) x y

abbrev pub raise : ℕ → Bool → ℕ
raise canmove hit = if canmove == 1 then canmove else if hit then 1 else canmove

-- The map is loaded; else nothing is checked.
unfoldable pub check_mob_collision : Map → Mob → ℤ → ℤ → Mob
unfolding in_block
check_mob_collision slot mob x y = record mob {
  canmove =
      raise mob.canmove
        (in_block slot (λ (i px py : ℕ). mob_in mob.id px py (slot.block_mob i)) x y);
}

unfoldable pub check_pc_collision : Map → Mob → ℤ → ℤ → Mob
unfolding in_block
check_pc_collision slot mob x y = record mob {
  canmove =
      raise mob.canmove
        (in_block slot (λ (i px py : ℕ). pc_in slot.show_ghosts px py (slot.block i)) x y);
}

abbrev pub any_plain : List ℕ → Bool
any_plain [] = false
any_plain (subtype ∷ rest) = subtype == 0 || any_plain rest

-- `rust_mob_move` on the NPCs of the cell.
unfoldable pub check_npcs : Map → Mob → ℤ → ℤ → Mob
check_npcs slot mob x y = record mob { canmove = raise mob.canmove (any_plain (slot.npcs x y)) }

unfoldable pub check_cell : Map → Mob → ℤ → ℤ → Mob
unfolding check_mob_collision check_pc_collision check_npcs in_block
check_cell slot mob x y =
    check_npcs slot (check_pc_collision slot (check_mob_collision slot mob x y) x y) x y

-- The cells from (x0, y0) to (x1, y1), where the players are told of a newcomer.
pub record Area : Type 0 where
  pub x0 : ℤ
  pub y0 : ℤ
  pub x1 : ℤ
  pub y1 : ℤ

-- The strip that `broadcast_move` tells of the newcomer. The scripts of the traps on the cell and the
-- broadcast of the move come behind it, and behind all writes of a step; they are left out.
unfoldable pub broadcast_move : View → Option Area
broadcast_move v =
    if v.nothingnew
    then none
    else some
        (record { x0 = v.x0; y0 = v.y0; x1 = v.x0 +ℤ v.x1 -ℤ pos 1; y1 = v.y0 +ℤ v.y1 -ℤ pos 1 })

-- A step's result: the mob, whether it moved, and the strip that is told.
abbrev pub Stepped : Type 0
Stepped = Mob × Bool × Option Area

abbrev pub stays_put : Mob → Stepped
stays_put mob = (mob, false, none)

-- `canmove` is set back.
abbrev pub refused : Mob → Stepped
refused mob = stays_put (record mob { canmove = 0 })

abbrev pub clamped : ℤ → ℕ → ℤ
clamped d limit = if leb_ℤ (pos limit) d then pos limit -ℤ pos 1 else d

abbrev pub kept_inside : ℤ → ℕ → ℕ → ℤ
kept_inside d limit back = if leb_ℤ (pos limit) d || ltb_ℤ d (pos 0) then pos back else d

-- The end of a step, behind the checks.
unfoldable pub land : Map → Mob → View → ℤ → ℤ → Stepped
unfolding broadcast_move
land slot mob v dx dy =
    let dx' = kept_inside dx slot.xs mob.x in
    let dy' = kept_inside dy slot.ys mob.y in
    if not (same_int dx' (pos mob.x)) || not (same_int dy' (pos mob.y))
    then (
      record mob { bx = mob.x; by_ = mob.y; x = pos_part dx'; y = pos_part dy' },
      true,
      broadcast_move v,
    )
    else stays_put mob

abbrev pub objects_block : Map → Mob → ℤ → ℤ → Bool
objects_block slot mob dx dy =
    slot.object_canmove dx dy mob.side || slot.object_canmove_from (pos mob.x) (pos mob.y) mob.side

abbrev pub ground_blocks : Map → Mob → ℤ → ℤ → Bool
ground_blocks slot mob dx dy = same_int (slot.canmove dx dy) (pos 1) || mob.canmove == 1

-- What follows the view, in each of the three functions: `dx` and `dy` are in the map.
unfoldable pub try_step : Map → Mob → View → ℤ → ℤ → Stepped
unfolding warp_at check_cell land
try_step slot mob v dx dy =
    let checked = check_cell slot mob dx dy in
    if warp_at slot dx dy
    then stays_put mob
    else if objects_block slot checked dx dy || ground_blocks slot checked dx dy
    then refused checked
    else land slot checked v dx dy

unfoldable pub try_step_ignore : Map → Mob → View → ℤ → ℤ → Stepped
unfolding warp_at land
try_step_ignore slot mob v dx dy =
    if warp_at slot dx dy
    then stays_put mob
    else if objects_block slot mob dx dy
    then refused mob
    else land slot mob v dx dy

unfoldable pub try_step_ghost : Map → Mob → View → ℤ → ℤ → Stepped
unfolding warp_at check_cell land
try_step_ghost slot mob v dx dy =
    let checked = check_cell slot mob dx dy in
    if warp_at slot dx dy
    then stays_put mob
    else if checked.target == 0
        && (objects_block slot checked dx dy || ground_blocks slot checked dx dy)
    then refused checked
    else land slot checked v dx dy

module _ (try : Map → Mob → View → ℤ → ℤ → Stepped) where
  abbrev pub with_view : Option Map → Mob → Stepped
  with_view none mob = stays_put mob
  with_view (some slot) mob =
      let v = viewport_delta mob.side mob.x mob.y slot.xs slot.ys in
      try slot mob v (clamped v.dx slot.xs) (clamped v.dy slot.ys)

-- `none` where the map is not loaded.
unfoldable pub move_mob : Option Map → Mob → Stepped
unfolding try_step viewport_delta
move_mob = with_view try_step

unfoldable pub move_mob_ignore_object : Option Map → Mob → Stepped
unfolding try_step_ignore viewport_delta
move_mob_ignore_object = with_view try_step_ignore

unfoldable pub moveghost_mob : Option Map → Mob → Stepped
unfolding try_step_ghost viewport_delta
moveghost_mob = with_view try_step_ghost

-- A step to a given cell of a loaded map: the mob, and what the function returns.
unfoldable pub mob_move2 : Map → Mob → ℤ → ℤ → ℤ → Mob × Bool
unfolding check_mob_collision check_pc_collision
mob_move2 slot mob x y side =
    let turned = record mob { side = side } in
    let checked = check_pc_collision slot (check_mob_collision slot turned x y) x y in
    if not (mob.canmove == 0)
    then (mob, true)
    else if ltb_ℤ x (pos 0) || ltb_ℤ y (pos 0)
    then (mob, false)
    else if same_int (slot.canmove x y) (pos 0) && checked.canmove == 0
    then (
      record checked { bx = mob.x; by_ = mob.y; x = pos_part x; y = pos_part y; canmove = 1 },
      true,
    )
    else (record checked { canmove = 0 }, false)

-- `|a - b|`.
abbrev pub distance : ℕ → ℕ → ℕ
distance a b = if leb a b then b - a else a - b

-- Turns to a target that stands next to the mob; the second part says whether it stands there.
unfoldable pub move_mob_intent : Mob → ℕ → ℕ → Mob × Bool
move_mob_intent mob px py =
    let ax = distance mob.x px in
    let ay = distance mob.y py in
    let s1 = if ltb mob.x px then pos 1 else mob.side in
    let s2 = if ltb px mob.x then pos 3 else s1 in
    let s3 = if ltb mob.y py then pos 2 else s2 in
    let s4 = if ltb py mob.y then pos 0 else s3 in
    if ax == 0 && ay == 1 || ax == 1 && ay == 0
    then (record mob { canmove = 0; side = s4 }, true)
    else (record mob { canmove = 0 }, false)
