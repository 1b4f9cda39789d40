-- ===== src/Tests/MindTests.antt =====
-- What monsters do at a tick and drop, on concrete inputs.
use yuri.Base.{
  ℕ, ◌-◌, ◌+◌, ◌%◌, ◌≡◌, ◌⊎◌, refl, List, [], ◌∷◌, Option, some, none, true, false, arith,
  if◌then◌else◌, ◌==◌, leb, All,
}
use yuri.Base.Int.{ℤ, pos, negsuc, ◌+ℤ◌, i32_add}
use yuri.Game.Inventory.Item.{Item, zeroed}
use yuri.Game.Inventory.Drop.{FloorItem}
use yuri.Game.Ai.Brain.{MobDb, Brain, in_spawn_window}
use yuri.Game.Ai.Target.{Sighted, pc_foe, search_area}
use yuri.Game.Ai.Handle.{
  World, AiCall, Tick, act, strike, dispatch_ai, spawn_check, mob_handle_sub, attack, move,
}
use yuri.Game.Ai.Window.{in_spawn_window_lem}
use yuri.Game.Ai.Chosen.{fair, some_fair, search_area_lem}
use yuri.Game.Ai.Fit.{Fit, mob_handle_sub-Fit}
use yuri.Game.Drops.Drop.{Attacker, mobdb_drops}
use yuri.Game.Drops.Dropped.{lying, carried, mobdb_drops_lem}

-- A window from the hour 22 to the hour 4.
in_spawn_window_lem_example :
    in_spawn_window (pos 22) (pos 4) (pos 1) ≡ leb ((1 + 24 - 22) % 24) ((4 + 24 - 22) % 24)
in_spawn_window_lem_example = in_spawn_window_lem 22 4 1 (omega arith) (omega arith) (omega arith)

at_night :
    (in_spawn_window (pos 22) (pos 4) (pos 1) ≡ true)
    × (in_spawn_window (pos 22) (pos 4) (pos 5) ≡ false)
unfolding in_spawn_window
at_night = (refl, refl)

abbrev wolf_kind : MobDb
wolf_kind = record {
  kind = pos 1;
  subtype = pos 0;
  vita = pos 30;
  mana = pos 5;
  baseac = negsuc 99;
  miss = pos 0;
  hit = pos 1;
  might = pos 1;
  grace = pos 1;
  will = pos 1;
  mindam = 1;
  maxdam = 2;
  movetime = pos 1000;
  atktime = pos 1000;
  spawntime = pos 60;
  seeinvis = pos 0;
}

-- A wolf in a state, with its target and the time since it acted.
abbrev wolf : ℕ → ℕ → ℤ → Brain
wolf state target time = record {
  id = 1073741830;
  m = 3;
  x = 5;
  y = 5;
  startm = 3;
  startx = 1;
  starty = 2;
  mobid = 8;
  replace = 0;
  start = pos 25;
  end_ = pos 25;
  onetime = 0;
  state = state;
  time = time;
  newmove = 1000;
  newatk = 1000;
  last_death = 100;
  spawncheck = pos 0;
  target = target;
  attacker = 0;
  confused = 0;
  confused_target = 0;
  paralyzed = 0;
  blind = 0;
  snare = pos 0;
  data_ = some wolf_kind;
  maxvita = 30;
  maxmana = 5;
  current_vita = 0;
  current_mana = 0;
  exp = 10;
  ac = pos 0;
  miss = pos 0;
  hit = pos 1;
  might = pos 1;
  grace = pos 1;
  will = pos 1;
  mindam = 1;
  maxdam = 2;
}

abbrev hero : ℕ → ℤ → Sighted
hero id gm_level = record {
  id = id;
  state = pos 0;
  gm_level = gm_level;
  dura_aether = [];
  random = 0;
}

-- Map 3 with one user; the block 21 is a player on it. Scripts leave a monster as it is.
abbrev forest : World
forest = record {
  nature = record {
    search = λ id. some wolf_kind;
    experience = λ id. 10;
    on_spawn = λ b. b;
    own_on_spawn = λ b. b;
  };
  cur_time = pos 12;
  now = 200;
  users = λ m. 1;
  name = λ id. none;
  id2bl = λ id. if id == 21 then some (pc_foe 3 (pos 0)) else none;
  area = λ b. hero 20 (pos 99) ∷ hero 21 (pos 0) ∷ [];
  run = λ call. call.mob;
}

mob_handle_sub-Fit_example : All Fit (mob_handle_sub forest (wolf 4 21 (pos 2000))).calls
mob_handle_sub-Fit_example = mob_handle_sub-Fit forest (wolf 4 21 (pos 2000))

-- It attacks, once.
attacks :
    (mob_handle_sub forest (wolf 4 21 (pos 2000))).calls
    ≡ record {
      script = yuri.Game.Ai.Handle.basic;
      event = attack;
      mob = wolf 4 21 (pos 0);
      foe = some (pc_foe 3 (pos 0));
    }
      ∷ []
unfolding mob_handle_sub in_spawn_window
attacks = refl

-- A dead one returns, and looks for a player at its next step.
returns :
    ((mob_handle_sub forest (wolf 1 0 (pos 0))).mob.state ≡ 0)
    × ((mob_handle_sub forest (wolf 1 0 (pos 0))).mob.current_vita ≡ 30)
    × ((mob_handle_sub forest (wolf 1 0 (pos 0))).mob.ac ≡ negsuc 94)
    × ((mob_handle_sub forest (wolf 0 0 (pos 2000))).mob.target ≡ 21)
unfolding mob_handle_sub in_spawn_window
returns = (refl, refl, refl, refl)

search_area_lem_example :
    ((search_area (λ id. none) (hero 20 (pos 99) ∷ hero 21 (pos 0) ∷ []) (wolf 0 0 (pos 0))
        ≡ wolf 0 0 (pos 0))
      × All
          (λ sd. fair (λ id. none) (wolf 0 0 (pos 0)) sd ≡ false)
          (hero 20 (pos 99) ∷ hero 21 (pos 0) ∷ []))
    ⊎ ((id : ℕ) × (search_area
            (λ id. none)
            (hero 20 (pos 99) ∷ hero 21 (pos 0) ∷ [])
            (wolf 0 0 (pos 0))
          ≡ wolf 0 id (pos 0))
        × (some_fair (λ id. none) (wolf 0 0 (pos 0)) id (hero 20 (pos 99) ∷ hero 21 (pos 0) ∷ [])
            ≡ true))
search_area_lem_example =
    search_area_lem (λ id. none) (hero 20 (pos 99) ∷ hero 21 (pos 0) ∷ []) (wolf 0 0 (pos 0)) refl
      refl

abbrev goods : ℕ → ℤ → Item
goods id amount = record zeroed { id = id; amount = amount }

abbrev ground_item : ℕ → ℕ → ℤ → FloorItem
ground_item bl_id id amount = record {
  bl_id = bl_id;
  contents = goods id amount;
  lastamount = pos 0;
  looters = [];
}

abbrev no_groups : ℕ → ℕ
no_groups i = 0

abbrev nobody_there : ℕ → Option Attacker
nobody_there id = none

abbrev no_script : List Item → List FloorItem → List Item × List FloorItem
no_script slots cell = (slots, cell)

mobdb_drops_lem_example :
    (lying 5
        (mobdb_drops no_groups nobody_there no_script 1073741830 1
          (λ n. n)
          (goods 5 (pos 2) ∷ goods 6 (pos 1) ∷ [])
          (ground_item 9 5 (pos 3) ∷ [])).1
      ≡ carried 5 (goods 5 (pos 2) ∷ goods 6 (pos 1) ∷ [])
        +ℤ lying 5 (ground_item 9 5 (pos 3) ∷ []))
    × (carried 5
          (mobdb_drops no_groups nobody_there no_script 1073741830 1
            (λ n. n)
            (goods 5 (pos 2) ∷ goods 6 (pos 1) ∷ [])
            (ground_item 9 5 (pos 3) ∷ [])).0
        ≡ pos 0)
mobdb_drops_lem_example =
    mobdb_drops_lem no_groups nobody_there no_script 1073741830 1 (λ n. n)
      (goods 5 (pos 2) ∷ goods 6 (pos 1) ∷ []) (ground_item 9 5 (pos 3) ∷ []) 5 (omega arith, tt)
      (unfold lying carried ◌+ℤ◌ in omega arith)

five_lie :
    lying 5
      (mobdb_drops no_groups nobody_there no_script 1073741830 1
        (λ n. n)
        (goods 5 (pos 2) ∷ goods 6 (pos 1) ∷ [])
        (ground_item 9 5 (pos 3) ∷ [])).1
    ≡ pos 5
unfolding lying mobdb_drops ◌+ℤ◌ i32_add
five_lie = refl
