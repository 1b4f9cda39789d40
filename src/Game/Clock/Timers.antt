-- ===== src/Game/Clock/Timers.antt =====
-- `rust_pc_starttimer`, `rust_pc_stoptimer`, `rust_pc_castusetimer` and
-- `rust_pc_afktimer` of src/game/pc.rs. The ids that `timer_insert` gives are a parameter.
use yuri.Base.{ℕ, ◌+◌, ◌&&◌, not, List, [], ◌∷◌, if◌then◌else◌, leb, ◌==◌}
use yuri.Base.Int.{ℤ, pos, ltb_ℤ}
use yuri.Game.Walk.View.{same_int}

-- The timers, by the field that holds the id.
pub data Kind : Type 0 where
  timer healingtimer pongtimer savetimer afktimer duratimer secondduratimer thirdduratimer
        fourthduratimer fifthduratimer scripttimer castusetimer :
      Kind

abbrev pub code : Kind → ℕ
code timer = 0
code healingtimer = 1
code pongtimer = 2
code savetimer = 3
code afktimer = 4
code duratimer = 5
code secondduratimer = 6
code thirdduratimer = 7
code fourthduratimer = 8
code fifthduratimer = 9
code scripttimer = 10
code castusetimer = 11

-- A timer that is registered.
pub record Entry : Type 0 where
  pub id : ℕ
  pub interval : ℕ
  pub kind : Kind

-- The fields of the player, 0 for none, the timers that are registered, and how many ids were given.
pub record Clock : Type 0 where
  pub held : Kind → ℕ
  pub wheel : List Entry
  pub given : ℕ

abbrev pub set_held : Kind → ℕ → (Kind → ℕ) → Kind → ℕ
set_held kind id held k = if code k == code kind then id else held k

-- `timer_remove`.
unfoldable pub removed : ℕ → List Entry → List Entry
removed id [] = []
removed id (e ∷ wheel) = let rest = removed id wheel in if e.id == id then rest else e ∷ rest

unfoldable pub start_one : (ℕ → ℕ) → Kind → ℕ → Clock → Clock
start_one fresh kind interval c = record {
  held = set_held kind (fresh c.given) c.held;
  wheel = record { id = fresh c.given; interval = interval; kind = kind } ∷ c.wheel;
  given = c.given + 1;
}

unfoldable pub pc_starttimer : (ℕ → ℕ) → ℤ → Clock → Clock
unfolding start_one
pc_starttimer fresh gm_level c =
    let c1 = start_one fresh timer 1000 c in
    let c2 = start_one fresh pongtimer 30000 c1 in
    let c3 = start_one fresh savetimer 60000 c2 in
    let c4 = if ltb_ℤ gm_level (pos 50) then start_one fresh afktimer 10000 c3 else c3 in
    let c5 = start_one fresh duratimer 1000 c4 in
    let c6 = start_one fresh secondduratimer 250 c5 in
    let c7 = start_one fresh thirdduratimer 500 c6 in
    let c8 = start_one fresh fourthduratimer 1500 c7 in
    let c9 = start_one fresh fifthduratimer 3000 c8 in
    let c10 = start_one fresh scripttimer 500 c9 in start_one fresh castusetimer 250 c10

unfoldable pub stop_one : Kind → Clock → Clock
unfolding removed
stop_one kind c =
    if not (c.held kind == 0)
    then record c { wheel = removed (c.held kind) c.wheel; held = set_held kind 0 c.held }
    else c

unfoldable pub stop_each : List Kind → Clock → Clock
unfolding stop_one
stop_each [] c = c
stop_each (kind ∷ kinds) c = stop_each kinds (stop_one kind c)

-- The order in which they are removed.
abbrev pub stopped : List Kind
stopped =
    timer ∷ healingtimer ∷ pongtimer ∷ afktimer ∷ duratimer ∷ savetimer ∷ secondduratimer
    ∷ thirdduratimer ∷ fourthduratimer ∷ fifthduratimer ∷ scripttimer ∷ []

unfoldable pub pc_stoptimer : Clock → Clock
unfolding stop_each
pc_stoptimer c = stop_each stopped c

unfoldable pub pc_castusetimer : Clock → Clock
pc_castusetimer c = record c { held = set_held castusetimer 0 c.held }

-- The part of a player that is idle.
pub record Idle : Type 0 where
  pub state : ℤ
  pub afk : ℕ
  pub afktime : ℕ
  pub totalafktime : ℕ

-- What is shown.
pub data Gesture : Type 0 where
  action animation : Gesture

unfoldable pub pc_afktimer : Idle → Idle × List Gesture
pc_afktimer sd =
    let sd1 = record sd { afktime = sd.afktime + 1 } in
    if sd.afk == 1 && same_int sd.state (pos 0)
    then (record sd1 { totalafktime = sd.totalafktime + 10 }, action ∷ [])
    else if sd.afk == 1 && same_int sd.state (pos 3)
    then (record sd1 { totalafktime = sd.totalafktime + 10 }, animation ∷ [])
    else if sd.afk == 1 && same_int sd.state (pos 1)
    then (record sd1 { totalafktime = sd.totalafktime + 10 }, [])
    else if leb 30 sd1.afktime
    then (if same_int sd.state (pos 0)
        then (record sd1 { totalafktime = sd.totalafktime + 300; afk = 1 }, action ∷ [])
        else if same_int sd.state (pos 3)
        then (record sd1 { totalafktime = sd.totalafktime + 300; afk = 1 }, animation ∷ [])
        else (record sd1 { afk = 1 }, []))
    else (sd1, [])
