-- ===== src/Game/Walk/Ghost.antt =====
-- `moveghost_mob` of src/game/mob.rs: a ghost with a target walks through what stands in its way, but the
-- flag that says so is left set.
use yuri.Base.{
  ℕ, ◌<◌, ◌≡◌, refl, ap, ◌∙◌, arith, Bool, true, false, ◌&&◌, ◌||◌, some, if◌then◌else◌, ◌==◌,
}
use yuri.Base.Int.{ℤ, pos}
use yuri.Game.Walk.View.{View, viewport_delta}
use yuri.Game.Walk.Mob.{
  Map, Mob, warp_at, raise, check_cell, Stepped, objects_block, ground_blocks, refused, land,
  broadcast_move, try_step_ghost, move_mob, moveghost_mob,
}
use yuri.Game.Walk.Step.{
  occupied, goal, landed, view-ahead, ahead_inside, checked_lem, by_mob, by_pc, by_npc,
  move_mob-Outcome,
}

-- A flag that is raised is 1.
raised_one : (c : ℕ) (a b d : Bool) → (a || b || d) ≡ true → raise (raise (raise c a) b) d ≡ 1
raised_one c a b d h = ground (arith, h)

-- A mob whose flag is set does not move.
stuck :
    (slot : Map) (mob : Mob)
    → mob.x < slot.xs
    → mob.y < slot.ys
    → mob.canmove ≡ 1
    → (move_mob (some slot) mob).1 ≡ false
stuck slot mob west north flag = (move_mob-Outcome slot mob west north).0.0 ∙ ground (arith, flag)

module _ (slot : Map) (mob : Mob) (tx ty : ℕ) (west : tx < slot.xs) (north : ty < slot.ys)
    (hunts : (mob.target == 0) ≡ false) (no_warp : warp_at slot (pos tx) (pos ty) ≡ false)
    (other : (tx == mob.x && ty == mob.y) ≡ false) (taken : occupied slot mob tx ty ≡ true) where
  flagged : check_cell slot mob (pos tx) (pos ty) ≡ record mob { canmove = 1 }
  flagged =
      checked_lem slot mob tx ty
      ∙ ap (λ (c : ℕ). record mob { canmove = c })
          (raised_one mob.canmove (by_mob slot mob tx ty) (by_pc slot mob tx ty)
            (by_npc slot mob tx ty) taken)

  -- What the step comes to with the mob that the checks leave.
  abbrev behind_checks : View → Mob → Stepped
  behind_checks v m =
      if m.target == 0
        && (objects_block slot m (pos tx) (pos ty) || ground_blocks slot m (pos tx) (pos ty))
      then refused m
      else land slot m v (pos tx) (pos ty)

  past_warp :
      (v : View)
      → try_step_ghost slot mob v (pos tx) (pos ty)
        ≡ behind_checks v (check_cell slot mob (pos tx) (pos ty))
  unfolding try_step_ghost
  past_warp v = rw (try_step_ghost, no_warp) refl

  walked :
      (v : View)
      → try_step_ghost slot mob v (pos tx) (pos ty) ≡ (
        record mob { bx = mob.x; by_ = mob.y; x = tx; y = ty; canmove = 1 },
        true,
        broadcast_move v,
      )
  walked v =
      past_warp v
      ∙ ap (behind_checks v) flagged
      ∙ rw hunts (landed slot (record mob { canmove = 1 }) v tx ty west north ∙ rw other refl)

-- A ghost with a target steps to the next cell though a living monster, a player who is no ghost to it, or
-- a plain NPC stands there, if no warp is there; and its next `move_mob` in that map is then refused,
-- whatever side it has turned to.
pub moveghost_mob-move_mob :
    (slot : Map) (mob : Mob) (side : ℤ)
    → mob.x < slot.xs
    → mob.y < slot.ys
    → (mob.target == 0) ≡ false
    → warp_at slot (pos (goal slot mob).0) (pos (goal slot mob).1) ≡ false
    → ((goal slot mob).0 == mob.x && (goal slot mob).1 == mob.y) ≡ false
    → occupied slot mob (goal slot mob).0 (goal slot mob).1 ≡ true
    → ((moveghost_mob (some slot) mob).1 ≡ true)
      × ((moveghost_mob (some slot) mob).0.x ≡ (goal slot mob).0)
      × ((moveghost_mob (some slot) mob).0.y ≡ (goal slot mob).1)
      × ((move_mob (some slot) (record (moveghost_mob (some slot) mob).0 { side = side })).1
          ≡ false)
unfolding moveghost_mob
moveghost_mob-move_mob slot mob side west north hunts no_warp other taken =
    let at = view-ahead west north mob.side in
    let inside = ahead_inside west north mob.side in
    let c = goal slot mob in
    rw
      (
        at.0,
        at.1,
        walked slot mob c.0 c.1 inside.0 inside.1 hunts no_warp other taken
            (viewport_delta mob.side mob.x mob.y slot.xs slot.ys),
      )
      (refl, refl, refl, stuck slot _ inside.0 inside.1 refl)
