-- ===== src/Game/Walk/Npc.antt =====
-- `npc_move` and `npc_move_sub` of src/game/npc.rs. The map is there; what the C code answers about a cell
-- is a parameter.
use yuri.Base.{
  ℕ, Bool, true, false, not, ◌||◌, List, [], ◌∷◌, Option, none, some, if◌then◌else◌, ◌==◌,
}
use yuri.Base.Int.{ℤ, pos, ◌+ℤ◌, ◌-ℤ◌, ltb_ℤ, leb_ℤ, pos_part}
use yuri.Game.Walk.View.{View, same_int, viewport_delta}
use yuri.Game.Walk.Mob.{Area, on_list, clamped, kept_inside}

-- What stands in a cell; `skip` and `dead` are what the helpers of the C code say.
pub data Body : Type 0 where
  npc : (subtype : ℕ) → Body
  creature : (dead : Bool) → Body
  pc : (skip : Bool) → Body
  other : Body

-- `warp` is the list of the cell's block, `bodies` what stands in the cell, in the order of the visits.
pub record Ground : Type 0 where
  pub xs : ℕ
  pub ys : ℕ
  pub warp : ℤ → ℤ → List (ℤ × ℤ)
  pub bodies : ℤ → ℤ → List Body
  pub object_canmove : ℤ → ℤ → ℤ → Bool
  pub object_canmove_from : ℤ → ℤ → ℤ → Bool
  pub canmove : ℤ → ℤ → ℤ

-- The part of `NpcData`; `side` is a C char.
pub record Npc : Type 0 where
  pub x : ℕ
  pub y : ℕ
  pub bx : ℕ
  pub by_ : ℕ
  pub side : ℤ
  pub canmove : ℕ

abbrev pub stands_in_way : Body → Bool
stands_in_way (npc subtype) = subtype == 0
stands_in_way (creature dead) = not dead
stands_in_way (pc skip) = not skip
stands_in_way other = false

unfoldable pub npc_move_sub : ℕ → Body → ℕ
npc_move_sub canmove bl = if canmove == 1 then canmove else if stands_in_way bl then 1 else canmove

unfoldable pub visit_bodies : ℕ → List Body → ℕ
unfolding npc_move_sub
visit_bodies canmove [] = canmove
visit_bodies canmove (bl ∷ rest) = visit_bodies (npc_move_sub canmove bl) rest

-- The first cell of the strip is put into the map.
abbrev pub inside : ℤ → ℕ → ℤ
inside a limit =
    let b = if ltb_ℤ (pos limit -ℤ pos 1) a then pos limit -ℤ pos 1 else a in
    if ltb_ℤ b (pos 0) then pos 0 else b

unfoldable pub told : Ground → View → Option Area
told slot v =
    let x0 = inside v.x0 slot.xs in
    let y0 = inside v.y0 slot.ys in
    if v.nothingnew
    then none
    else some (record { x0 = x0; y0 = y0; x1 = x0 +ℤ v.x1 -ℤ pos 1; y1 = y0 +ℤ v.y1 -ℤ pos 1 })

-- What follows the choice of the cell, which lies in the map: the NPC, whether 1 is returned, and the
-- strip that is told.
unfoldable pub npc_step : Ground → Npc → View → ℤ → ℤ → Npc × Bool × Option Area
unfolding visit_bodies told
npc_step slot nd v dx dy =
    let canmove = visit_bodies 0 (slot.bodies dx dy) in
    let dx' = kept_inside dx slot.xs nd.x in
    let dy' = kept_inside dy slot.ys nd.y in
    if on_list dx dy (slot.warp dx dy)
    then (nd, false, none)
    else if slot.object_canmove dx dy nd.side
        || slot.object_canmove_from (pos nd.x) (pos nd.y) nd.side
        || same_int (slot.canmove dx dy) (pos 1)
        || canmove == 1
    then (record nd { canmove = 0 }, false, none)
    else if not (same_int dx' (pos nd.x)) || not (same_int dy' (pos nd.y))
    then (
      record nd { canmove = canmove; bx = nd.x; by_ = nd.y; x = pos_part dx'; y = pos_part dy' },
      true,
      told slot v,
    )
    else (record nd { canmove = canmove }, false, none)

-- The cell and the strip are worked out as in `viewport_delta` of src/game/mob.rs, except that for a side
-- beyond the four nothing is done at all.
unfoldable pub npc_move : Ground → Npc → Npc × Bool × Option Area
unfolding npc_step viewport_delta
npc_move slot nd =
    let v = viewport_delta nd.side nd.x nd.y slot.xs slot.ys in
    if ltb_ℤ nd.side (pos 0) || leb_ℤ (pos 4) nd.side
    then (nd, false, none)
    else npc_step slot nd v (clamped v.dx slot.xs) (clamped v.dy slot.ys)
