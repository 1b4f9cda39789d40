-- ===== src/Game/Magic/Duration.antt =====
-- `rust_bl_duratimer` of src/game/pc.rs, with scripts that can change the player: every slot is read
-- again behind a script.
use yuri.Base.{
  ℕ, zero, suc, ◌+◌, ◌&&◌, List, [], ◌∷◌, ◌++◌, Option, none, some, if◌then◌else◌, ◌==◌, length,
  get_elem?,
}
use yuri.Base.Int.{pos, ◌-ℤ◌, leb_ℤ}
use yuri.Game.Magic.Slot.{
  SkillInfo, Caster, Hook, while_passive, while_equipped, while_cast, Report, script, send_duration,
  send_aether, sendanimation, cast_reports, uncast_report, aether_half,
}
use yuri.Game.Magic.Timers.{Bearer}

abbrev pub free_slot : SkillInfo
free_slot = record { id = 0; duration = pos 0; aether = pos 0; caster_id = 0; animation = 0 }

abbrev pub slot_of : ℕ → List SkillInfo → SkillInfo
slot_of x [] = free_slot
slot_of zero (s ∷ slots) = s
slot_of (suc x) (s ∷ slots) = slot_of x slots

abbrev pub set_slot : ℕ → SkillInfo → List SkillInfo → List SkillInfo
set_slot x new [] = []
set_slot zero new (s ∷ slots) = new ∷ slots
set_slot (suc x) new (s ∷ slots) = s ∷ set_slot x new slots

-- A write to the slot.
abbrev pub put : ℕ → SkillInfo → Bearer → Bearer
put x s sd = record sd { dura_aether = set_slot x s sd.dura_aether }

abbrev pub id_at : ℕ → List ℕ → ℕ
id_at x ids = elim (get_elem? ids x) [ none ↦ 0 | some id ↦ id ]

-- `map_id2bl` does not change within a call. `act` is what a script does to the player.
module _ (map_id2bl : ℕ → Caster) (act : Hook → ℕ → Option ℕ → Bearer → Bearer) where
  -- What the scripts among the reports do, in their order.
  unfoldable pub perform : List Report → Bearer → Bearer
  perform [] sd = sd
  perform (script hook id caster ∷ reports) sd = perform reports (act hook id caster sd)
  perform (send_duration id ∷ reports) sd = perform reports sd
  perform (send_aether id ∷ reports) sd = perform reports sd
  perform (sendanimation animation ∷ reports) sd = perform reports sd

  -- Behind `while_cast`: the end of the spell `s` that was in the slot, if its duration is over now.
  unfoldable pub bl_expire : ℕ → SkillInfo → Bearer → Bearer × List Report
  unfolding perform uncast_report
  bl_expire x s sd =
      let t = slot_of x sd.dura_aether in
      let over = record t {
        id = if leb_ℤ t.aether (pos 0) && leb_ℤ (pos 0) t.aether then 0 else t.id;
        duration = pos 0;
        caster_id = 0;
        animation = 0;
      } in
      let uncast = uncast_report map_id2bl s in
      if leb_ℤ t.duration (pos 0)
      then (
        perform (uncast ∷ []) (put x over sd),
        send_duration t.id ∷ sendanimation t.animation ∷ uncast ∷ [],
      )
      else (sd, [])

  -- The first half of a tick, for the duration.
  unfoldable pub bl_dura : ℕ → Bearer → Bearer × List Report
  unfolding perform cast_reports bl_expire
  bl_dura x sd =
      let s = slot_of x sd.dura_aether in
      let casts = cast_reports map_id2bl (while_cast 0) s in
      let sd1 = put x (record s { duration = s.duration -ℤ pos 1000 }) sd in
      let (sd2, reports) = bl_expire x s (perform casts sd1) in
      if leb_ℤ s.duration (pos 0) then (sd, []) else (sd2, casts ++ reports)

  -- The second half, for the aether.
  unfoldable pub bl_aether : ℕ → Bearer → Bearer × List Report
  unfolding aether_half
  bl_aether x sd =
      let (s, reports) = aether_half map_id2bl (slot_of x sd.dura_aether) in (put x s sd, reports)

  unfoldable pub bl_tick : ℕ → Bearer → Bearer × List Report
  unfolding bl_dura bl_aether
  bl_tick x sd =
      let (sd1, first) = bl_dura x sd in
      let (sd2, second) = bl_aether x sd1 in
      if (slot_of x sd.dura_aether).id == 0 then (sd, []) else (sd2, first ++ second)

  -- So many slots from `x` on.
  unfoldable pub slots_loop : ℕ → ℕ → Bearer → Bearer × List Report
  unfolding bl_tick
  slots_loop x zero sd = (sd, [])
  slots_loop x (suc n) sd =
      let (sd', now) = bl_tick x sd in
      let (sd'', later) = slots_loop (x + 1) n sd' in (sd'', now ++ later)

  -- A script for each id that is not 0, of so many from `x` on.
  unfoldable pub scripts_loop : Hook → (Bearer → List ℕ) → ℕ → ℕ → Bearer → Bearer × List Report
  scripts_loop hook ids x zero sd = (sd, [])
  scripts_loop hook ids x (suc n) sd =
      let id = id_at x (ids sd) in
      let (sd', later) =
        scripts_loop hook ids (x + 1) n (if id == 0 then sd else act hook id none sd) in
      (sd', if id == 0 then later else script hook id none ∷ later)

  unfoldable pub bl_duratimer : Bearer → Bearer × List Report
  unfolding slots_loop scripts_loop
  bl_duratimer sd =
      let (sd1, passive) = scripts_loop (while_passive 0) (λ b. b.skill) 0 52 sd in
      let (sd2, equipped) = scripts_loop (while_equipped 0) (λ b. b.equip) 0 14 sd1 in
      let (sd3, reports) = slots_loop 0 (length sd2.dura_aether) sd2 in
      (sd3, passive ++ (equipped ++ reports))
