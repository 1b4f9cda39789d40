-- ===== src/Tests/CreatureTests.antt =====
-- Monsters and NPCs of src/game on concrete inputs.
use yuri.Base.{◌*◌, ◌+◌, ℕ, ◌<◌, ◌≡◌, refl, List, [], ◌∷◌, some, true, false, arith, ◌&&◌, ◌==◌}
use yuri.Base.Int.{ℤ, pos}
use yuri.Game.Walk.View.{viewport_delta}
use yuri.Game.Walk.Newcomers.{Told, viewport_delta-Told}
use yuri.Game.Walk.Mob.{
  Map, Mob, warp_at, in_block, check_mob_collision, check_pc_collision, check_npcs, check_cell,
  land, try_step, move_mob, moveghost_mob,
}
use yuri.Game.Walk.Step.{Outcome, ahead, can_go, goal, occupied, move_mob-Outcome}
use yuri.Game.Walk.Ghost.{moveghost_mob-move_mob}
use yuri.Game.Walk.Npc.{npc, creature, Ground, Npc, visit_bodies, told, npc_step, npc_move}
use yuri.Game.Ids.Search.{taken, mobot_start_num, mob_get_free_id, free_onetime, mob_timer_spawns}
use yuri.Game.Npcs.Timers.{Timers}
use yuri.Game.Npcs.Period.{actions, actions_lem}
use yuri.Game.Ids.Free.{Found, mob_get_free_id-Found}
use yuri.Game.Ids.Onetime.{Event, spawns, dies, run, Fresh, run-visited, run-free_onetime}

-- An empty map of 60 by 60 cells with a living monster at (31, 30).
abbrev field : Map
field = record {
  xs = 60;
  ys = 60;
  bxs = 8;
  bys = 8;
  show_ghosts = 0;
  warp = λ i. [];
  block_mob = λ i. record { id = 9; x = 31; y = 30; state = 0 } ∷ [];
  block = λ i. [];
  npcs = λ x y. [];
  object_canmove = λ x y side. false;
  object_canmove_from = λ x y side. false;
  canmove = λ x y. pos 0;
}

-- A monster that faces a side, with its flag, and a target.
abbrev walker : ℤ → ℕ → Mob
walker side target = record {
  id = 7;
  x = 30;
  y = 30;
  bx = 0;
  by_ = 0;
  side = side;
  canmove = 0;
  target = target;
}

-- It steps up.
walks_up :
    ((move_mob (some field) (walker (pos 0) 0)).0.y ≡ 29)
    × ((move_mob (some field) (walker (pos 0) 0)).1 ≡ true)
unfolding move_mob try_step viewport_delta warp_at check_cell check_mob_collision check_pc_collision
    check_npcs in_block land
walks_up = (refl, refl)

-- To the right there is another.
blocked_right : (move_mob (some field) (walker (pos 1) 0)).1 ≡ false
unfolding move_mob try_step viewport_delta warp_at check_cell check_mob_collision check_pc_collision
    check_npcs in_block land
blocked_right = refl

move_mob-Outcome_example :
    Outcome
      (can_go field
        (walker (pos 1) 0)
        (goal field (walker (pos 1) 0)).0
        (goal field (walker (pos 1) 0)).1)
      (walker (pos 1) 0)
      (viewport_delta (pos 1) 30 30 60 60)
      (goal field (walker (pos 1) 0)).0
      (goal field (walker (pos 1) 0)).1
      (move_mob (some field) (walker (pos 1) 0))
    × ((goal field (walker (pos 1) 0)).0 < 60)
    × ((goal field (walker (pos 1) 0)).1 < 60)
move_mob-Outcome_example = move_mob-Outcome field (walker (pos 1) 0) (omega arith) (omega arith)

no_warp :
    warp_at field (pos (goal field (walker (pos 1) 5)).0) (pos (goal field (walker (pos 1) 5)).1)
    ≡ false
unfolding warp_at ahead
no_warp = refl

other_cell :
    ((goal field (walker (pos 1) 5)).0 == 30 && (goal field (walker (pos 1) 5)).1 == 30) ≡ false
unfolding ahead
other_cell = refl

is_occupied :
    occupied field
      (walker (pos 1) 5)
      (goal field (walker (pos 1) 5)).0
      (goal field (walker (pos 1) 5)).1
    ≡ true
unfolding ahead in_block
is_occupied = refl

moveghost_mob-move_mob_example :
    ((moveghost_mob (some field) (walker (pos 1) 5)).1 ≡ true)
    × ((moveghost_mob (some field) (walker (pos 1) 5)).0.x ≡ (goal field (walker (pos 1) 5)).0)
    × ((moveghost_mob (some field) (walker (pos 1) 5)).0.y ≡ (goal field (walker (pos 1) 5)).1)
    × ((move_mob
          (some field)
          (record (moveghost_mob (some field) (walker (pos 1) 5)).0 { side = pos 2 })).1
        ≡ false)
moveghost_mob-move_mob_example =
    moveghost_mob-move_mob field (walker (pos 1) 5) (pos 2) (omega arith) (omega arith) refl no_warp
      other_cell is_occupied

viewport_delta-Told_example :
    ((viewport_delta (pos 1) 30 30 60 60).nothingnew ≡ false)
    × Told (viewport_delta (pos 1) 30 30 60 60) 30 30 40 30
viewport_delta-Told_example =
    viewport_delta-Told 1 30 30 60 60 40 30 (omega arith)
      (record { west = omega arith; east = omega arith; north = omega arith; south = omega arith })

-- An NPC at (30, 30), with its flag set, and a dead monster above it.
abbrev square : Ground
square = record {
  xs = 60;
  ys = 60;
  warp = λ x y. [];
  bodies = λ x y. creature true ∷ npc 2 ∷ [];
  object_canmove = λ x y side. false;
  object_canmove_from = λ x y side. false;
  canmove = λ x y. pos 0;
}

abbrev guard : Npc
guard = record { x = 30; y = 30; bx = 0; by_ = 0; side = pos 0; canmove = 1 }

npc_walks :
    ((npc_move square guard).1 ≡ true)
    × ((npc_move square guard).0.y ≡ 29)
    × ((npc_move square guard).0.canmove ≡ 0)
unfolding npc_move npc_step visit_bodies told viewport_delta
npc_walks = (refl, refl, refl)

mob_get_free_id-Found_example :
    Found mobot_start_num 1173741824
      (1173741823 ∷ [])
      (mob_get_free_id (1173741823 ∷ []) 1173741824)
mob_get_free_id-Found_example =
    mob_get_free_id-Found (1173741823 ∷ []) 1173741824 (omega arith) (omega arith)

-- Three spawns, and the death of the last.
abbrev life : List Event
life = spawns 3 ∷ dies 1173741825 ∷ []

-- The mark stays at 1173741826.
life_mark : run life ([], mobot_start_num) ≡ (1173741824 ∷ 1173741823 ∷ [], 1173741826)
unfolding run
life_mark = refl

none_there : Fresh []
none_there = λ k a b h. ground (arith, h)

life-taken : taken 1173741824 (run life ([], mobot_start_num)).0 ≡ true
unfolding run
life-taken = refl

run-visited_example :
    taken 1173741824
      (mob_timer_spawns 5 5 (run life ([], mobot_start_num)).1 (run life ([], mobot_start_num)).0).1
    ≡ true
run-visited_example =
    run-visited [] life 5 5 1173741824 none_there (tt, (tt, tt)) (omega arith) (omega arith)
      (omega arith) life-taken

run-free_onetime_example :
    free_onetime (run life ([], mobot_start_num)).0 (run life ([], mobot_start_num)).1
    ≡ run life ([], mobot_start_num)
run-free_onetime_example = run-free_onetime [] life none_there (tt, (tt, tt)) (omega arith)

-- An interval of 250 milliseconds.
abbrev clock : Timers
clock = record {
  time = 0;
  actiontime = 250;
  movetimer = 0;
  movetime = 0;
  duratime = 0;
  duration = 0;
  owner = 0;
}

-- In seven calls the script runs twice.
acts_twice : (actions (λ id. false) (λ f nd. nd) 7 clock).1 ≡ 2
unfolding actions
acts_twice = refl

actions_lem_example :
    (r : ℕ) × (r < 3)
    × (7 ≡ (actions (λ id. false) (λ f nd. nd) 7 clock).1 * 3 + r)
    × ((actions (λ id. false) (λ f nd. nd) 7 clock).0.time ≡ 100 * r)
actions_lem_example =
    actions_lem (λ id. false) (λ f nd. nd) 7 3 clock (λ f nd. refl) refl (omega arith) (omega arith)
      (omega arith) (omega arith)
