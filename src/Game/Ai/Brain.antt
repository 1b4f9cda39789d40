-- ===== src/Game/Ai/Brain.antt =====
-- The fields of `MobSpawnData` that the tick of a monster in src/game/mob.rs reads and writes, and the
-- return of a dead one. What a return sets beside these (the looks, the floats, the critical hits) is
-- read by no function here.
use yuri.Base.{
  ℕ, suc, ◌-◌, ◌^◌, Bool, not, ◌&&◌, ◌||◌, Option, none, some, if◌then◌else◌, ltb, leb, ◌==◌,
}
use yuri.Base.Int.{ℤ, pos, negsuc, ltb_ℤ, leb_ℤ}
use yuri.Game.Walk.View.{same_int}
use yuri.Game.Ids.Search.{mob_start_num, npc_start_num}

-- `as u32` of a C int, and back.
abbrev pub as_u32 : ℤ → ℕ
as_u32 (pos n) = n
as_u32 (negsuc n) = 2 ^ 32 - suc n

abbrev pub as_i32 : ℕ → ℤ
as_i32 n = if ltb n (2 ^ 31) then pos n else negsuc (2 ^ 32 - 1 - n)

-- The part of `MobDbData`; `kind` is its `type`.
pub record MobDb : Type 0 where
  pub kind : ℤ
  pub subtype : ℤ
  pub vita : ℤ
  pub mana : ℤ
  pub baseac : ℤ
  pub miss : ℤ
  pub hit : ℤ
  pub might : ℤ
  pub grace : ℤ
  pub will : ℤ
  pub mindam : ℕ
  pub maxdam : ℕ
  pub movetime : ℤ
  pub atktime : ℤ
  pub spawntime : ℤ
  pub seeinvis : ℤ

pub record Brain : Type 0 where
  pub id : ℕ
  pub m : ℕ
  pub x : ℕ
  pub y : ℕ
  pub startm : ℕ
  pub startx : ℕ
  pub starty : ℕ
  pub mobid : ℕ
  pub replace : ℕ
  pub start : ℤ
  pub end_ : ℤ
  pub onetime : ℕ
  pub state : ℕ
  pub time : ℤ
  pub newmove : ℕ
  pub newatk : ℕ
  pub last_death : ℕ
  pub spawncheck : ℤ
  pub target : ℕ
  pub attacker : ℕ
  pub confused : ℕ
  pub confused_target : ℕ
  pub paralyzed : ℕ
  pub blind : ℕ
  pub snare : ℤ
  pub data_ : Option MobDb
  pub maxvita : ℕ
  pub maxmana : ℕ
  pub current_vita : ℕ
  pub current_mana : ℕ
  pub exp : ℕ
  pub ac : ℤ
  pub miss : ℤ
  pub hit : ℤ
  pub might : ℤ
  pub grace : ℤ
  pub will : ℤ
  pub mindam : ℕ
  pub maxdam : ℕ

abbrev pub mob_alive : ℕ
mob_alive = 0

abbrev pub mob_dead : ℕ
mob_dead = 1

abbrev pub mob_hit : ℕ
mob_hit = 4

abbrev pub mob_escape : ℕ
mob_escape = 5

-- `mobdb_search` and `mobdb_experience`, and what the hooks for `on_spawn` do: the general one, and the
-- monster's own.
pub record Nature : Type 0 where
  pub search : ℕ → Option MobDb
  pub experience : ℕ → ℕ
  pub on_spawn : Brain → Brain
  pub own_on_spawn : Brain → Brain

-- `ct` is `cur_time`, the hour.
unfoldable pub in_spawn_window : ℤ → ℤ → ℤ → Bool
in_spawn_window s e ct =
    ltb_ℤ s e && leb_ℤ s ct && leb_ℤ ct e
    || ltb_ℤ e s && (leb_ℤ s ct || leb_ℤ ct e)
    || same_int s e && same_int ct s && same_int ct e
    || same_int s (pos 25) && same_int e (pos 25)

abbrev pub fill : Nature → MobDb → Brain → Brain
fill nature d b = record b {
  data_ = some d;
  maxvita = as_u32 d.vita;
  maxmana = as_u32 d.mana;
  ac = if ltb_ℤ d.baseac (negsuc 94) then negsuc 94 else d.baseac;
  exp = if b.exp == 0 then nature.experience b.mobid else b.exp;
  miss = d.miss;
  newmove = as_u32 d.movetime;
  newatk = as_u32 d.atktime;
  current_vita = as_u32 d.vita;
  current_mana = as_u32 d.mana;
  hit = d.hit;
  mindam = d.mindam;
  maxdam = d.maxdam;
  might = d.might;
  grace = d.grace;
  will = d.will;
  time = pos 0;
  paralyzed = 0;
  blind = 0;
  confused = 0;
  snare = pos 0;
  target = 0;
  attacker = 0;
  confused_target = 0;
}

abbrev pub fill_if : Nature → Option MobDb → Brain → Brain
fill_if nature none b = record b { data_ = none }
fill_if nature (some d) b = fill nature d b

unfoldable pub mob_respawn_getstats : Nature → ℤ → Brain → Brain
unfolding in_spawn_window
mob_respawn_getstats nature ct b =
    fill_if nature
      (if in_spawn_window b.start b.end_ ct
        then nature.search b.mobid
        else if not (b.replace == 0)
        then nature.search b.replace
        else nature.search b.mobid)
      b

-- The block list and what is shown are left out.
unfoldable pub mob_warp : ℕ → ℕ → ℕ → Brain → Brain
mob_warp m x y b =
    if ltb b.id mob_start_num || leb npc_start_num b.id then b else record b { m = m; x = x; y = y }

abbrev pub own_spawned : Nature → Option MobDb → Brain → Brain
own_spawned nature none b = b
own_spawned nature (some d) b = nature.own_on_spawn b

-- Where a monster returns to. `map_moveblock` is taken to put it to the cell.
abbrev pub at_home : Brain → Brain
at_home b =
    if b.m == b.startm
    then record b { x = b.startx; y = b.starty }
    else mob_warp b.startm b.startx b.starty b

-- On a map without users nothing is shown.
unfoldable pub mob_respawn_nousers : Nature → ℤ → Brain → Brain
unfolding mob_warp mob_respawn_getstats
mob_respawn_nousers nature ct b =
    let spawned =
      nature.on_spawn (mob_respawn_getstats nature ct (record (at_home b) { state = mob_alive })) in
    own_spawned nature spawned.data_ spawned

-- Apart from what is shown, which is left out, the same.
unfoldable pub mob_respawn : Nature → ℤ → Brain → Brain
unfolding mob_warp mob_respawn_getstats
mob_respawn nature ct b =
    let spawned =
      nature.on_spawn (mob_respawn_getstats nature ct (record (at_home b) { state = mob_alive })) in
    own_spawned nature spawned.data_ spawned
