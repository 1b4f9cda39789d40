-- ===== src/Game/Ai/Handle.antt =====
-- `mob_handle_sub` and `dispatch_ai` of src/game/mob.rs: a tick of a monster.
use yuri.Base.{
  ℕ, ◌+◌, ◌%◌, ◌^◌, Bool, false, not, ◌&&◌, ◌||◌, List, [], ◌∷◌, Option, none, some, if◌then◌else◌,
  ltb, leb, ◌==◌,
}
use yuri.Base.Int.{ℤ, pos, leb_ℤ}
use yuri.Game.Walk.View.{same_int}
use yuri.Game.Ai.Brain.{
  Brain, MobDb, Nature, as_u32, as_i32, mob_alive, mob_dead, mob_hit, mob_escape, in_spawn_window,
  mob_respawn, mob_respawn_nousers,
}
use yuri.Game.Ai.Target.{Foe, Sighted, search_area, map_of, forget, mob_resolve_target}

-- The script for a `subtype`, and the event.
pub data Script : Type 0 where
  basic normal hard boss own ghost : Script

pub data Event : Type 0 where
  move attack escape : Event

-- A call of a script: with the monster as it is then, and what `mob_resolve_target` found.
pub record AiCall : Type 0 where
  pub script : Script
  pub event : Event
  pub mob : Brain
  pub foe : Option Foe

-- `users` are those of a map, 0 for one that is not loaded; `area` are the players near the monster, and
-- `run` is what a script does to it.
pub record World : Type 0 where
  pub nature : Nature
  pub cur_time : ℤ
  pub now : ℕ
  pub users : ℕ → ℕ
  pub name : ℕ → Option (List ℕ)
  pub id2bl : ℕ → Option Foe
  pub area : Brain → List Sighted
  pub run : AiCall → Brain

-- The monster, the calls of its scripts, and whether `free_onetime` took it.
pub record Tick : Type 0 where
  pub mob : Brain
  pub calls : List AiCall
  pub freed : Bool

abbrev pub quiet : Brain → Tick
quiet b = record { mob = b; calls = []; freed = false }

abbrev pub script_for : ℤ → Option Script
script_for s =
    if same_int s (pos 0)
    then some basic
    else if same_int s (pos 1)
    then some normal
    else if same_int s (pos 2)
    then some hard
    else if same_int s (pos 3)
    then some boss
    else if same_int s (pos 4)
    then some own
    else if same_int s (pos 5)
    then some ghost
    else none

abbrev pub calling : World → Event → Option Foe → Brain → Option Script → Brain × List AiCall
calling world event foe b none = (b, [])
calling world event foe b (some script) =
    let call : AiCall = record { script = script; event = event; mob = b; foe = foe } in
    (world.run call, call ∷ [])

abbrev pub dispatch_to : World → Event → Option Foe → Brain → Option MobDb → Brain × List AiCall
dispatch_to world event foe b none = (b, [])
dispatch_to world event foe b (some d) = calling world event foe b (script_for d.subtype)

unfoldable pub dispatch_ai : World → Event → Option Foe → Brain → Brain × List AiCall
dispatch_ai world event foe b = dispatch_to world event foe b b.data_

-- Whether the time has come: for the interval of the kind and for the monster's own.
abbrev pub due : ℤ → ℤ → ℕ → Bool
due time base new =
    leb_ℤ base time && leb_ℤ (as_i32 new) time || ltb 0 new && leb_ℤ (as_i32 new) time

abbrev pub looking : World → MobDb → Brain → Brain
looking world d b =
    if same_int d.kind (pos 1) && b.target == 0 then search_area world.name (world.area b) b else b

-- A move or an escape, of a monster whose kind is `d`.
unfoldable pub act : World → Event → MobDb → Brain → Tick
unfolding search_area mob_resolve_target dispatch_ai
act world event d b =
    let (foe, b2) = mob_resolve_target world.id2bl (looking world d b) in
    let (b3, calls) = dispatch_ai world event foe (record b2 { time = pos 0 }) in
    record { mob = b3; calls = calls; freed = false }

abbrev pub slowed_to : Option MobDb → Brain → Brain
slowed_to none b = b
slowed_to (some d) b =
    if ltb b.newmove (as_u32 d.movetime) then record b { newmove = as_u32 d.movetime } else b

-- A monster that did not move is not faster than its kind.
abbrev pub settled : Brain → Tick → Tick
settled before after =
    if after.mob.x == before.x && after.mob.y == before.y
    then record after { mob = slowed_to after.mob.data_ after.mob }
    else after

abbrev pub calm : Brain → Brain
calm b = record (forget b) { state = mob_alive }

abbrev pub strike_at : World → Option Foe → Brain → Tick
strike_at world none b = quiet (calm b)
strike_at world (some foe) b =
    if not (map_of foe == b.m)
    then quiet (calm b)
    else (let (b3, calls) = dispatch_ai world attack (some foe) (record b { time = pos 0 }) in
        record { mob = b3; calls = calls; freed = false })

unfoldable pub strike : World → Brain → Tick
unfolding mob_resolve_target dispatch_ai
strike world b = let (foe, b2) = mob_resolve_target world.id2bl b in strike_at world foe b2

-- The states in which a monster acts.
abbrev pub awake : World → MobDb → Brain → Tick
awake world d b =
    if not (b.state == mob_hit)
    then (if not (due b.time d.movetime b.newmove) || leb_ℤ (pos 2) d.kind
        then quiet b
        else if b.state == mob_alive
        then settled b (act world move d b)
        else act world escape d b)
    else if not (due b.time d.atktime b.newatk) || leb_ℤ (pos 2) d.kind
    then quiet b
    else strike world b

abbrev pub awake_if : World → Option MobDb → Brain → Tick
awake_if world none b = quiet b
awake_if world (some d) b = awake world d b

abbrev pub by_state : World → Brain → Tick
by_state world b =
    if b.state == mob_dead
    then record { mob = b; calls = []; freed = not (b.onetime == 0) }
    else if b.state == mob_alive || b.state == mob_hit || b.state == mob_escape
    then awake_if world b.data_ b
    else quiet b

abbrev pub spawntime_of : Option MobDb → ℕ
spawntime_of none = 0
spawntime_of (some d) = as_u32 d.spawntime

-- The first part: a dead monster of the map returns. The sum is one of `u32`.
unfoldable pub spawn_check : World → Brain → Brain
unfolding in_spawn_window mob_respawn mob_respawn_nousers
spawn_check world b =
    if in_spawn_window b.start b.end_ world.cur_time
      && leb ((b.last_death + spawntime_of b.data_) % 2 ^ 32) world.now
    then (let b1 = record b { spawncheck = pos 0 } in
        if b.state == mob_dead && b.onetime == 0
        then (if world.users b.m == 0
            then mob_respawn_nousers world.nature world.cur_time (forget b1)
            else mob_respawn world.nature world.cur_time (forget b1))
        else b1)
    else b

abbrev pub kind_of : Option MobDb → ℤ
kind_of none = pos 0
kind_of (some d) = d.kind

abbrev pub subtype_of : Option MobDb → ℤ
subtype_of none = pos 0
subtype_of (some d) = d.subtype

-- Nothing is done for a monster on a map that nobody is on, but for a dead one and for two subtypes.
abbrev pub left_alone : ℕ → Brain → Bool
left_alone users b =
    let away = users == 0 && not (b.state == mob_dead) in
    away && not (b.onetime == 0) && not (same_int (subtype_of b.data_) (pos 2))
    || away && b.onetime == 0 && not (same_int (subtype_of b.data_) (pos 4))

unfoldable pub mob_handle_sub : World → Brain → Tick
unfolding spawn_check act strike
mob_handle_sub world b =
    let b1 = spawn_check world b in
    if leb_ℤ (pos 2) (kind_of b1.data_)
    then quiet b1
    else if left_alone (world.users b1.m) b1
    then quiet b1
    else by_state world (record b1 { time = as_i32 ((as_u32 b1.time + 50) % 2 ^ 32) })
