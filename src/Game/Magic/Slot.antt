-- ===== src/Game/Magic/Slot.antt =====
-- One slot of the spells of a monster (`da`) or a player (`dura_aether`), and what a tick does to it.
use yuri.Base.{ℕ, ◌&&◌, List, [], ◌∷◌, ◌++◌, Option, none, some, if◌then◌else◌, ltb, ◌==◌}
use yuri.Base.Int.{ℤ, pos, ◌-ℤ◌, leb_ℤ}

-- The fields of `SkillInfo` that the timers use. Times are in milliseconds.
pub record SkillInfo : Type 0 where
  pub id : ℕ
  pub duration : ℤ
  pub aether : ℤ
  pub caster_id : ℕ
  pub animation : ℕ

-- What `map_id2bl` finds for a caster.
pub data Caster : Type 0 where
  nobody player other : Caster
  creature : (current_vita : ℕ) → Caster

-- The hooks of a script: the events, whose names end in the interval, and what else is called.
pub data Hook : Type 0 where
  while_cast while_passive while_equipped : (interval : ℕ) → Hook
  uncast recast : Hook

pub data Report : Type 0 where
  script : (hook : Hook) (id : ℕ) (caster : Option ℕ) → Report
  send_duration : (id : ℕ) → Report
  send_aether : (id : ℕ) → Report
  sendanimation : (animation : ℕ) → Report

module _ (map_id2bl : ℕ → Caster) where
  abbrev pub tbl_of : ℕ → Caster
  tbl_of caster_id = if ltb 0 caster_id then map_id2bl caster_id else nobody

  -- While a spell lasts: not for a caster that is a dead monster, or neither a monster nor a player.
  unfoldable pub cast_reports : Hook → SkillInfo → List Report
  cast_reports hook s = elim (tbl_of s.caster_id) [
    | nobody ↦ script hook s.id none ∷ []
    | player ↦ script hook s.id (some s.caster_id) ∷ []
    | other ↦ []
    | creature vita ↦ if ltb 0 vita then script hook s.id (some s.caster_id) ∷ [] else []
  ]

  -- When it ends.
  unfoldable pub uncast_report : SkillInfo → Report
  uncast_report s =
      script uncast s.id (elim (tbl_of s.caster_id) [ nobody ↦ none | _ ↦ some s.caster_id ])

  -- A tick of `mob_duratimer`.
  unfoldable pub mob_tick : SkillInfo → SkillInfo × List Report
  unfolding cast_reports uncast_report
  mob_tick s =
      let left = s.duration -ℤ pos 1000 in
      if s.id == 0
      then (s, [])
      else if leb_ℤ s.duration (pos 0)
      then (s, [])
      else if leb_ℤ left (pos 0)
      then (
        record s { id = 0; duration = pos 0; caster_id = 0; animation = 0 },
        cast_reports (while_cast 0) s ++ sendanimation s.animation ∷ uncast_report s ∷ [],
      )
      else (record s { duration = left }, cast_reports (while_cast 0) s)

  -- The second half of a tick of `rust_bl_duratimer`, for the aether.
  unfoldable pub aether_half : SkillInfo → SkillInfo × List Report
  aether_half s =
      let left = s.aether -ℤ pos 1000 in
      if leb_ℤ s.aether (pos 0)
      then (s, [])
      else if leb_ℤ left (pos 0)
      then (
        record s {
          id = if leb_ℤ s.duration (pos 0) && leb_ℤ (pos 0) s.duration then 0 else s.id;
          aether = pos 0;
        },
        send_aether s.id ∷ [],
      )
      else (record s { aether = left }, [])

  -- A tick of the timers that count nothing down.
  unfoldable pub cast_tick : ℕ → SkillInfo → List Report
  unfolding cast_reports
  cast_tick interval s =
      if s.id == 0
      then []
      else if leb_ℤ s.duration (pos 0)
      then []
      else cast_reports (while_cast interval) s

  -- `mob_flushmagic` on a slot. The caster is looked up when its id is cleared already.
  unfoldable pub flush_slot : ℕ → SkillInfo → SkillInfo × List Report
  flush_slot bl_id s =
      let bl = if bl_id == 0 then nobody else map_id2bl 0 in
      if s.id == 0 then (s, []) else (
        record s { id = 0; duration = pos 0; caster_id = 0; animation = 0 },
        sendanimation s.animation
            ∷ script uncast s.id (elim bl [ nobody ↦ none | _ ↦ some 0 ])
            ∷ [],
      )
