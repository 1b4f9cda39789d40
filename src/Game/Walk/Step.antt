-- ===== src/Game/Walk/Step.antt =====
-- Where a step of a monster ends, and when it is made.
use yuri.Base.{
  ℕ, zero, suc, ◌+◌, ◌-◌, ◌<◌, ◌≡◌, refl, ap, ◌∙◌, arith, Bool, true, false, not, ◌&&◌, ◌||◌, none,
  some, if◌then◌else◌, ltb, ◌==◌, inl, inr, Bool-cases,
}
use yuri.Base.Int.{ℤ, pos, negsuc, ◌-ℤ◌}
use yuri.Game.Walk.View.{View, standing, same_int, viewport_delta}
use yuri.Game.Walk.Mob.{
  Map, Mob, warp_at, mob_in, pc_in, in_block, any_plain, raise, check_cell, check_mob_collision,
  check_pc_collision, check_npcs, objects_block, ground_blocks, land, broadcast_move, try_step,
  clamped, move_mob, Stepped, stays_put, refused,
}

-- The next cell on a side, or the same cell at the edge of the map and for other sides.
unfoldable pub ahead : ℤ → ℕ → ℕ → ℕ → ℕ → ℕ × ℕ
ahead (negsuc n) x y xs ys = (x, y)
ahead (pos side) x y xs ys =
    if side == 0
    then (x, y - 1)
    else if side == 1
    then (if ltb (x + 1) xs then x + 1 else x, y)
    else if side == 2
    then (x, if ltb (y + 1) ys then y + 1 else y)
    else if side == 3
    then (x - 1, y)
    else (x, y)

module _ {x y xs ys : ℕ} (west : x < xs) (north : y < ys) where
  no_side : (n : ℕ) → viewport_delta (pos (suc (suc (suc (suc n))))) x y xs ys ≡ standing x y
  unfolding viewport_delta
  no_side n = ground arith

  no_way : (n : ℕ) → ahead (pos (suc (suc (suc (suc n))))) x y xs ys ≡ (x, y)
  unfolding ahead
  no_way n = ground arith

  pub view-ahead :
      (side : ℤ)
      → (clamped (viewport_delta side x y xs ys).dx xs ≡ pos (ahead side x y xs ys).0)
        × (clamped (viewport_delta side x y xs ys).dy ys ≡ pos (ahead side x y xs ys).1)
  unfolding viewport_delta ahead ◌-ℤ◌
  view-ahead (negsuc n) = (ground arith, ground arith)
  view-ahead (pos zero) = (ground arith, ground arith)
  view-ahead (pos (suc zero)) = (ground arith, ground arith)
  view-ahead (pos (suc (suc zero))) = (ground arith, ground arith)
  view-ahead (pos (suc (suc (suc zero)))) = (ground arith, ground arith)
  view-ahead (pos (suc (suc (suc (suc n))))) = rw (no_side n, no_way n) (ground arith, ground arith)

  pub ahead_inside : (side : ℤ) → ((ahead side x y xs ys).0 < xs) × ((ahead side x y xs ys).1 < ys)
  unfolding ahead
  ahead_inside (negsuc n) = (west, north)
  ahead_inside (pos side) = (ground arith, ground arith)

-- A living monster, a player or an NPC stands in the cell and is no ghost to the mob.
abbrev pub occupied : Map → Mob → ℕ → ℕ → Bool
occupied slot mob tx ty =
    in_block slot (λ (i px py : ℕ). mob_in mob.id px py (slot.block_mob i)) (pos tx) (pos ty)
    || in_block slot (λ (i px py : ℕ). pc_in slot.show_ghosts px py (slot.block i)) (pos tx)
        (pos ty)
    || any_plain (slot.npcs (pos tx) (pos ty))

-- The raised flag.
raised : (c : ℕ) (a b d : Bool) → (raise (raise (raise c a) b) d == 1) ≡ (c == 1 || (a || b || d))
raised c a b d = ground arith

unraised : (c : ℕ) (a b d : Bool) → (a || b || d) ≡ false → raise (raise (raise c a) b) d ≡ c
unraised c a b d h = ground arith

-- What is in the way of a step to a cell.
abbrev pub barred : Map → Mob → ℕ → ℕ → Bool
barred slot mob tx ty =
    objects_block slot mob (pos tx) (pos ty)
    || (same_int (slot.canmove (pos tx) (pos ty)) (pos 1)
        || (mob.canmove == 1 || occupied slot mob tx ty))

-- A step to another cell that no warp and nothing else is in.
abbrev pub can_go : Map → Mob → ℕ → ℕ → Bool
can_go slot mob tx ty =
    not (tx == mob.x && ty == mob.y)
    && (not (warp_at slot (pos tx) (pos ty)) && not (barred slot mob tx ty))

-- What a step is, if it is made or not: a mob that does not move may have its flag `canmove` set back.
abbrev pub Outcome : Bool → Mob → View → ℕ → ℕ → Stepped → Type 0
Outcome go mob v tx ty (mob', moved, told) =
    (moved ≡ go)
    × (mob'.x ≡ (if go then tx else mob.x))
    × (mob'.y ≡ (if go then ty else mob.y))
    × (mob'.bx ≡ (if go then mob.x else mob.bx))
    × (mob'.by_ ≡ (if go then mob.y else mob.by_))
    × (told ≡ (if go then broadcast_move v else none))

-- The end of a step that nothing is in the way of.
pub landed :
    (slot : Map) (mob : Mob) (v : View) (tx ty : ℕ)
    → tx < slot.xs
    → ty < slot.ys
    → land slot mob v (pos tx) (pos ty) ≡ (
        if tx == mob.x && ty == mob.y
        then stays_put mob
        else (record mob { bx = mob.x; by_ = mob.y; x = tx; y = ty }, true, broadcast_move v))
unfolding land
landed slot mob v tx ty west north = ground arith

module _ (slot : Map) (mob : Mob) (tx ty : ℕ) where
  abbrev pub by_mob : Bool
  by_mob = in_block slot (λ (i px py : ℕ). mob_in mob.id px py (slot.block_mob i)) (pos tx) (pos ty)

  abbrev pub by_pc : Bool
  by_pc =
      in_block slot (λ (i px py : ℕ). pc_in slot.show_ghosts px py (slot.block i)) (pos tx) (pos ty)

  abbrev pub by_npc : Bool
  by_npc = any_plain (slot.npcs (pos tx) (pos ty))

  abbrev pub checked : Mob
  checked = check_cell slot mob (pos tx) (pos ty)

  pub checked_lem :
      checked ≡ record mob { canmove = raise (raise (raise mob.canmove by_mob) by_pc) by_npc }
  unfolding check_mob_collision check_pc_collision check_npcs check_cell
  checked_lem = refl

  checked_free : (by_mob || by_pc || by_npc) ≡ false → checked ≡ mob
  checked_free h =
      checked_lem
      ∙ ap (λ (c : ℕ). record mob { canmove = c }) (unraised mob.canmove by_mob by_pc by_npc h)

  ground_blocks_lem : ground_blocks slot checked (pos tx) (pos ty) ≡ (
      same_int (slot.canmove (pos tx) (pos ty)) (pos 1)
      || (mob.canmove == 1 || occupied slot mob tx ty))
  ground_blocks_lem =
      ap (λ (m : Mob). ground_blocks slot m (pos tx) (pos ty)) checked_lem
      ∙ ap (λ (b : Bool). same_int (slot.canmove (pos tx) (pos ty)) (pos 1) || b)
          (raised mob.canmove by_mob by_pc by_npc)

  objects_block_lem :
      objects_block slot checked (pos tx) (pos ty) ≡ objects_block slot mob (pos tx) (pos ty)
  objects_block_lem = ap (λ (m : Mob). objects_block slot m (pos tx) (pos ty)) checked_lem

  free_occupied : barred slot mob tx ty ≡ false → (by_mob || by_pc || by_npc) ≡ false
  free_occupied h = ground (arith, h)

  module _ (v : View) (west : tx < slot.xs) (north : ty < slot.ys) where
    put_Outcome : (go : Bool) → go ≡ false → Outcome go mob v tx ty (stays_put mob)
    put_Outcome go h = rw h (refl, refl, refl, refl, refl, refl)

    refused_Outcome : (go : Bool) → go ≡ false → Outcome go mob v tx ty (refused checked)
    refused_Outcome go h = rw (h, checked_lem) (refl, refl, refl, refl, refl, refl)

    landed_Outcome :
        (go : Bool)
        → go ≡ not (tx == mob.x && ty == mob.y)
        → Outcome go mob v tx ty (land slot mob v (pos tx) (pos ty))
    landed_Outcome go h =
        rw (landed slot mob v tx ty west north) (elim (Bool-cases (tx == mob.x && ty == mob.y)) [
          | inl own ↦ rw (h, own) (refl, refl, refl, refl, refl, refl)
          | inr other ↦ rw (h, other) (refl, refl, refl, refl, refl, refl)
        ])

    free_Outcome :
        (go : Bool)
        → barred slot mob tx ty ≡ false
        → go ≡ not (tx == mob.x && ty == mob.y)
        → Outcome go mob v tx ty (land slot checked v (pos tx) (pos ty))
    free_Outcome go free h = rw (checked_free (free_occupied free)) (landed_Outcome go h)

    try_step-Outcome :
        Outcome (can_go slot mob tx ty) mob v tx ty (try_step slot mob v (pos tx) (pos ty))
    unfolding try_step
    try_step-Outcome = elim (Bool-cases (warp_at slot (pos tx) (pos ty))) [
      | inl warp ↦ rw (try_step, warp) (put_Outcome _ (ground arith))
      | inr clear ↦ elim (Bool-cases (barred slot mob tx ty)) [
        | inl bar ↦
            rw (try_step, clear, objects_block_lem, ground_blocks_lem, bar)
              (refused_Outcome _ (ground arith))
        | inr free ↦
            rw (try_step, clear, objects_block_lem, ground_blocks_lem, free)
              (free_Outcome _ free (ground arith))
      ]
    ]

-- The cell that a mob would step to.
abbrev pub goal : Map → Mob → ℕ × ℕ
goal slot mob = ahead mob.side mob.x mob.y slot.xs slot.ys

-- A mob in its map steps to the next cell on its side, which is in the map, if and only if no warp is
-- there, the C code's three tests let it pass, its flag is not set, and no living monster, player who is no
-- ghost to it, or plain NPC stands there; at the edge of the map there is no next cell. It keeps the cell
-- where it was and the strip of its view is told; else it stays, with nothing told.
pub move_mob-Outcome :
    (slot : Map) (mob : Mob)
    → mob.x < slot.xs
    → mob.y < slot.ys
    → Outcome
        (can_go slot mob (goal slot mob).0 (goal slot mob).1)
        mob
        (viewport_delta mob.side mob.x mob.y slot.xs slot.ys)
        (goal slot mob).0
        (goal slot mob).1
        (move_mob (some slot) mob)
      × ((goal slot mob).0 < slot.xs)
      × ((goal slot mob).1 < slot.ys)
unfolding move_mob
move_mob-Outcome slot mob west north =
    let at = view-ahead west north mob.side in
    let inside = ahead_inside west north mob.side in
    (
      rw (at.0, at.1)
          (try_step-Outcome slot mob (goal slot mob).0 (goal slot mob).1
            (viewport_delta mob.side mob.x mob.y slot.xs slot.ys) inside.0 inside.1),
      inside.0,
      inside.1,
    )
