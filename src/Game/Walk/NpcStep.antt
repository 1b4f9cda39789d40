-- ===== src/Game/Walk/NpcStep.antt =====
-- When an NPC makes its step, and where it ends.
use yuri.Base.{
  ℕ, ◌<◌, ◌≡◌, refl, arith, Bool, true, false, not, ◌&&◌, ◌||◌, List, [], ◌∷◌, Option, none,
  if◌then◌else◌, ◌==◌, Bool-cases, inl, inr,
}
use yuri.Base.Int.{pos, ltb_ℤ, leb_ℤ, pos_part}
use yuri.Game.Walk.View.{View, same_int, viewport_delta}
use yuri.Game.Walk.Mob.{Area, on_list, kept_inside}
use yuri.Game.Walk.Step.{ahead, view-ahead, ahead_inside}
use yuri.Game.Walk.Npc.{
  Body, Ground, Npc, stands_in_way, npc_move_sub, visit_bodies, told, npc_step, npc_move,
}

abbrev pub any_body : List Body → Bool
any_body [] = false
any_body (bl ∷ rest) = stands_in_way bl || any_body rest

visit-set : (bls : List Body) → visit_bodies 1 bls ≡ 1
unfolding visit_bodies npc_move_sub
visit-set [] = refl
visit-set (bl ∷ rest) = visit-set rest

visit-any : (bls : List Body) → visit_bodies 0 bls ≡ (if any_body bls then 1 else 0)
unfolding visit_bodies npc_move_sub
visit-any [] = refl
visit-any (bl ∷ rest) = elim (Bool-cases (stands_in_way bl)) [
  | inl hit ↦ rw (hit, visit-set rest) refl
  | inr miss ↦ rw miss (visit-any rest)
]

-- What is in the way of a step to a cell.
abbrev pub way_barred : Ground → Npc → ℕ → ℕ → Bool
way_barred slot nd tx ty =
    slot.object_canmove (pos tx) (pos ty) nd.side
    || slot.object_canmove_from (pos nd.x) (pos nd.y) nd.side
    || same_int (slot.canmove (pos tx) (pos ty)) (pos 1)
    || any_body (slot.bodies (pos tx) (pos ty))

-- A step to another cell that no warp and nothing else is in.
abbrev pub goes : Ground → Npc → ℕ → ℕ → Bool
goes slot nd tx ty =
    not (tx == nd.x && ty == nd.y)
    && not (on_list (pos tx) (pos ty) (slot.warp (pos tx) (pos ty)))
    && not (way_barred slot nd tx ty)

-- What a step is, if it is made or not.
abbrev pub Moves : Bool → Ground → Npc → View → ℕ → ℕ → Npc × Bool × Option Area → Type 0
Moves go slot nd v tx ty (nd', moved, strip) =
    (moved ≡ go)
    × (nd'.x ≡ (if go then tx else nd.x))
    × (nd'.y ≡ (if go then ty else nd.y))
    × (nd'.bx ≡ (if go then nd.x else nd.bx))
    × (nd'.by_ ≡ (if go then nd.y else nd.by_))
    × (strip ≡ (if go then told slot v else none))

flag : (b : Bool) → ((if b then 1 else 0) == 1) ≡ b
flag true = refl
flag false = refl

module _ (slot : Ground) (nd : Npc) (v : View) (tx ty : ℕ) (west : tx < slot.xs)
    (north : ty < slot.ys) where
  -- The end of a step that nothing is in the way of.
  arrived :
      (go : Bool) (c : ℕ)
      → go ≡ not (tx == nd.x && ty == nd.y)
      → Moves go slot nd v tx ty (
          if not (same_int (kept_inside (pos tx) slot.xs nd.x) (pos nd.x))
            || not (same_int (kept_inside (pos ty) slot.ys nd.y) (pos nd.y))
          then (
            record nd {
              canmove = c;
              bx = nd.x;
              by_ = nd.y;
              x = pos_part (kept_inside (pos tx) slot.xs nd.x);
              y = pos_part (kept_inside (pos ty) slot.ys nd.y);
            },
            true,
            told slot v,
          )
          else (record nd { canmove = c }, false, none))
  arrived go c h =
      let ex : kept_inside (pos tx) slot.xs nd.x ≡ pos tx = ground (arith, west) in
      let ey : kept_inside (pos ty) slot.ys nd.y ≡ pos ty = ground (arith, north) in
      let same : (not (same_int (pos tx) (pos nd.x)) || not (same_int (pos ty) (pos nd.y)))
          ≡ not (tx == nd.x && ty == nd.y) =
        ground arith in
      rw (ex, ey, same, h)
        (elim (Bool-cases (tx == nd.x && ty == nd.y)) [
          | inl own ↦ rw own (refl, refl, refl, refl, refl, refl)
          | inr off ↦ rw off (refl, refl, refl, refl, refl, refl)
        ])

  npc_step-Moves : Moves (goes slot nd tx ty) slot nd v tx ty (npc_step slot nd v (pos tx) (pos ty))
  unfolding npc_step
  npc_step-Moves = elim (Bool-cases (on_list (pos tx) (pos ty) (slot.warp (pos tx) (pos ty)))) [
    | inl warp ↦
        let no_go : goes slot nd tx ty ≡ false = ground (arith, warp) in
        rw (npc_step, no_go, warp) (refl, refl, refl, refl, refl, refl)
    | inr clear ↦ elim (Bool-cases (way_barred slot nd tx ty)) [
      | inl bar ↦
          let no_go : goes slot nd tx ty ≡ false = ground (arith, bar) in
          rw
            (
              npc_step,
              no_go,
              clear,
              visit-any (slot.bodies (pos tx) (pos ty)),
              flag (any_body (slot.bodies (pos tx) (pos ty))),
              bar,
            )
            (refl, refl, refl, refl, refl, refl)
      | inr free ↦
          rw
            (
              npc_step,
              clear,
              visit-any (slot.bodies (pos tx) (pos ty)),
              flag (any_body (slot.bodies (pos tx) (pos ty))),
              free,
            )
            (arrived _ _ (ground arith))
    ]
  ]

-- An NPC in its map, on one of the four sides, steps to the next cell on its side, which is in the map, if
-- and only if no warp is there, the C code's three tests let it pass, and no plain NPC, living monster or
-- player who blocks stands there, whatever its flag was before; at the edge of the map there is no next
-- cell. It keeps the cell where it was and the strip of its view is told; else it stays, with nothing
-- told.
pub npc_move-Moves :
    (slot : Ground) (nd : Npc) (side : ℕ)
    → nd.side ≡ pos side
    → side < 4
    → nd.x < slot.xs
    → nd.y < slot.ys
    → Moves
        (goes slot nd
          (ahead nd.side nd.x nd.y slot.xs slot.ys).0
          (ahead nd.side nd.x nd.y slot.xs slot.ys).1)
        slot
        nd
        (viewport_delta nd.side nd.x nd.y slot.xs slot.ys)
        (ahead nd.side nd.x nd.y slot.xs slot.ys).0
        (ahead nd.side nd.x nd.y slot.xs slot.ys).1
        (npc_move slot nd)
unfolding npc_move
npc_move-Moves slot nd side e h west north =
    let at = view-ahead west north nd.side in
    let within = ahead_inside west north nd.side in
    let fine : (ltb_ℤ nd.side (pos 0) || leb_ℤ (pos 4) nd.side) ≡ false =
      rw e (ground (arith, h)) in
    rw (fine, at.0, at.1)
      (npc_step-Moves slot nd (viewport_delta nd.side nd.x nd.y slot.xs slot.ys)
        (ahead nd.side nd.x nd.y slot.xs slot.ys).0 (ahead nd.side nd.x nd.y slot.xs slot.ys).1
        within.0 within.1)
