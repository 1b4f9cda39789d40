-- ===== src/Game/Magic/Timers.antt =====
-- The timers over all slots: `mob_duratimer` and its siblings, `mob_flushmagic`, the siblings of
-- `rust_bl_duratimer`, and `rust_bl_aethertimer`. A monster and a player have 200 slots. The scripts that
-- these timers run are taken to leave the slots, and what is learned and worn, as they are.
use yuri.Base.{ℕ, ◌&&◌, List, [], ◌∷◌, ◌++◌, none, if◌then◌else◌, ◌==◌, take}
use yuri.Base.Int.{pos, ◌-ℤ◌, leb_ℤ}
use yuri.Game.Magic.Slot.{
  SkillInfo, Caster, Hook, while_passive, while_equipped, Report, script, send_aether, mob_tick,
  cast_tick, flush_slot,
}

-- Each slot in turn.
unfoldable pub each :
    (SkillInfo → SkillInfo × List Report) → List SkillInfo → List SkillInfo × List Report
each tick [] = ([], [])
each tick (s ∷ slots) =
    let (s', now) = tick s in let (slots', later) = each tick slots in (s' ∷ slots', now ++ later)

abbrev pub each_report : (SkillInfo → List Report) → List SkillInfo → List Report
each_report report [] = []
each_report report (s ∷ slots) = report s ++ each_report report slots

-- One script for each id that is not 0.
unfoldable pub all_scripts : Hook → List ℕ → List Report
all_scripts hook [] = []
all_scripts hook (id ∷ ids) =
    let rest = all_scripts hook ids in if id == 0 then rest else script hook id none ∷ rest

-- The part of a player that the timers use: the spells learned, and the ids of what is worn, of which
-- the first 14 count.
pub record Bearer : Type 0 where
  pub skill : List ℕ
  pub equip : List ℕ
  pub dura_aether : List SkillInfo

module _ (map_id2bl : ℕ → Caster) where
  unfoldable pub mob_duratimer : List SkillInfo → List SkillInfo × List Report
  unfolding each mob_tick
  mob_duratimer = each (mob_tick map_id2bl)

  unfoldable pub dura_tick : ℕ → List SkillInfo → List Report
  unfolding cast_tick
  dura_tick interval = each_report (cast_tick map_id2bl interval)

  unfoldable pub mob_secondduratimer : List SkillInfo → List Report
  unfolding dura_tick
  mob_secondduratimer = dura_tick 250

  unfoldable pub mob_thirdduratimer : List SkillInfo → List Report
  unfolding dura_tick
  mob_thirdduratimer = dura_tick 500

  unfoldable pub mob_fourthduratimer : List SkillInfo → List Report
  unfolding dura_tick
  mob_fourthduratimer = dura_tick 1500

  unfoldable pub mob_flushmagic : ℕ → List SkillInfo → List SkillInfo × List Report
  unfolding each flush_slot
  mob_flushmagic bl_id = each (flush_slot map_id2bl bl_id)

  -- The scripts of what is learned and worn, which every timer of a player runs first.
  abbrev pub worn_reports : ℕ → Bearer → List Report
  worn_reports interval sd =
      all_scripts (while_passive interval) sd.skill
      ++ all_scripts (while_equipped interval) (take 14 sd.equip)

  -- What the four other timers of a player share, which differ in the interval.
  unfoldable pub bl_casttimer : ℕ → Bearer → List Report
  unfolding cast_tick all_scripts
  bl_casttimer interval sd =
      worn_reports interval sd ++ each_report (cast_tick map_id2bl interval) sd.dura_aether

  unfoldable pub bl_secondduratimer : Bearer → List Report
  unfolding bl_casttimer
  bl_secondduratimer = bl_casttimer 250

  unfoldable pub bl_thirdduratimer : Bearer → List Report
  unfolding bl_casttimer
  bl_thirdduratimer = bl_casttimer 500

  unfoldable pub bl_fourthduratimer : Bearer → List Report
  unfolding bl_casttimer
  bl_fourthduratimer = bl_casttimer 1500

  unfoldable pub bl_fifthduratimer : Bearer → List Report
  unfolding bl_casttimer
  bl_fifthduratimer = bl_casttimer 3000

-- Ends at the first slot in use whose aether is over.
unfoldable pub bl_aethertimer : List SkillInfo → List SkillInfo × List Report
bl_aethertimer [] = ([], [])
bl_aethertimer (s ∷ slots) =
    let left = if leb_ℤ s.aether (pos 0) then s.aether else s.aether -ℤ pos 1000 in
    let (slots', later) = bl_aethertimer slots in
    if s.id == 0
    then (s ∷ slots', later)
    else if leb_ℤ left (pos 0)
    then (
      record s {
        id = if leb_ℤ s.duration (pos 0) && leb_ℤ (pos 0) s.duration then 0 else s.id;
        aether = pos 0;
      }
          ∷ slots,
      send_aether s.id ∷ [],
    )
    else (record s { aether = left } ∷ slots', later)
