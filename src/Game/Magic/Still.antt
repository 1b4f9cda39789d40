-- ===== src/Game/Magic/Still.antt =====
-- A tick of `rust_bl_duratimer` on one slot that no script changes, and that the code's tick, where scripts
-- leave the slots as they are, is this one.
use yuri.Base.{
  ℕ, zero, suc, ◌+◌, ◌≡◌, refl, sym, ap, ap₂, ◌∙◌, true, false, ◌&&◌, List, [], ◌∷◌, ◌++◌, Option,
  none, if◌then◌else◌, ◌==◌, length, length-append, Bool-cases, inl, inr,
}
use yuri.Base.Int.{pos, ◌-ℤ◌, leb_ℤ}
use mathlib.Core.List.{append-nil, append_assoc}
use yuri.Game.Magic.Slot.{
  SkillInfo, Caster, Hook, while_cast, Report, script, send_duration, send_aether, sendanimation,
  cast_reports, uncast_report, aether_half,
}
use yuri.Game.Magic.Timers.{Bearer, each}
use yuri.Game.Magic.Duration.{
  slot_of, set_slot, put, perform, bl_expire, bl_dura, bl_aether, bl_tick, slots_loop, scripts_loop,
  id_at,
}

module _ (map_id2bl : ℕ → Caster) where
  -- The first half.
  unfoldable pub dura_half : SkillInfo → SkillInfo × List Report
  unfolding cast_reports uncast_report
  dura_half s =
      let left = s.duration -ℤ pos 1000 in
      if leb_ℤ s.duration (pos 0)
      then (s, [])
      else if leb_ℤ left (pos 0)
      then (
        record s {
          id = if leb_ℤ s.aether (pos 0) && leb_ℤ (pos 0) s.aether then 0 else s.id;
          duration = pos 0;
          caster_id = 0;
          animation = 0;
        },
        cast_reports map_id2bl (while_cast 0) s
            ++ send_duration s.id ∷ sendanimation s.animation ∷ uncast_report map_id2bl s ∷ [],
      )
      else (record s { duration = left }, cast_reports map_id2bl (while_cast 0) s)

  unfoldable pub still_tick : SkillInfo → SkillInfo × List Report
  unfolding dura_half aether_half
  still_tick s =
      let first = dura_half s in
      let second = aether_half map_id2bl first.0 in
      if s.id == 0 then (s, []) else (second.0, first.1 ++ second.1)

slot_of-append :
    (before : List SkillInfo) (s : SkillInfo) (behind : List SkillInfo)
    → slot_of (length before) (before ++ s ∷ behind) ≡ s
slot_of-append [] s behind = refl
slot_of-append (b ∷ before) s behind = slot_of-append before s behind

set_slot-append :
    (before : List SkillInfo) (s new : SkillInfo) (behind : List SkillInfo)
    → set_slot (length before) new (before ++ s ∷ behind) ≡ before ++ new ∷ behind
set_slot-append [] s new behind = refl
set_slot-append (b ∷ before) s new behind = ap (◌∷◌ b) (set_slot-append before s new behind)

module _ (map_id2bl : ℕ → Caster) (act : Hook → ℕ → Option ℕ → Bearer → Bearer)
    (quiet : (hook : Hook) (id : ℕ) (caster : Option ℕ) (sd : Bearer)
      → (act hook id caster sd).dura_aether ≡ sd.dura_aether) where
  perform-quiet :
      (reports : List Report) (sd : Bearer)
      → (perform map_id2bl act reports sd).dura_aether ≡ sd.dura_aether
  unfolding perform
  perform-quiet [] sd = refl
  perform-quiet (script hook id caster ∷ reports) sd =
      perform-quiet reports (act hook id caster sd) ∙ quiet hook id caster sd
  perform-quiet (send_duration id ∷ reports) sd = perform-quiet reports sd
  perform-quiet (send_aether id ∷ reports) sd = perform-quiet reports sd
  perform-quiet (sendanimation a ∷ reports) sd = perform-quiet reports sd

  pub scripts_loop-quiet :
      (hook : Hook) (ids : Bearer → List ℕ) (x n : ℕ) (sd : Bearer)
      → (scripts_loop map_id2bl act hook ids x n sd).0.dura_aether ≡ sd.dura_aether
  unfolding scripts_loop
  scripts_loop-quiet hook ids x zero sd = refl
  scripts_loop-quiet hook ids x (suc n) sd = elim (Bool-cases (id_at x (ids sd) == 0)) [
    | inl free ↦ rw free (scripts_loop-quiet hook ids (x + 1) n sd)
    | inr used ↦ rw used (
        scripts_loop-quiet hook ids (x + 1) n (act hook (id_at x (ids sd)) none sd)
        ∙ quiet hook (id_at x (ids sd)) none sd)
  ]

  -- A second less.
  abbrev counted : SkillInfo → SkillInfo
  counted s = record s { duration = s.duration -ℤ pos 1000 }

  -- The player behind `while_cast`.
  abbrev behind_casts : ℕ → Bearer → Bearer
  behind_casts x sd =
      let s = slot_of x sd.dura_aether in
      perform map_id2bl act (cast_reports map_id2bl (while_cast 0) s) (put x (counted s) sd)

  -- The end of the spell `s`, where `t` is in the slot.
  abbrev still_expire : SkillInfo → SkillInfo → SkillInfo × List Report
  still_expire s t =
      if leb_ℤ t.duration (pos 0)
      then (
        record t {
          id = if leb_ℤ t.aether (pos 0) && leb_ℤ (pos 0) t.aether then 0 else t.id;
          duration = pos 0;
          caster_id = 0;
          animation = 0;
        },
        send_duration t.id ∷ sendanimation t.animation ∷ uncast_report map_id2bl s ∷ [],
      )
      else (t, [])

  bl_tick-free :
      (x : ℕ) (sd : Bearer)
      → ((slot_of x sd.dura_aether).id == 0) ≡ true
      → bl_tick map_id2bl act x sd ≡ (sd, [])
  unfolding bl_tick
  bl_tick-free x sd free =
      let r = bl_dura map_id2bl act x sd in
      let a = bl_aether map_id2bl act x r.0 in
      ap (λ b. if b then (sd, []) else (a.0, r.1 ++ a.1)) free

  bl_tick-used :
      (x : ℕ) (sd : Bearer)
      → ((slot_of x sd.dura_aether).id == 0) ≡ false
      → bl_tick map_id2bl act x sd ≡ (
        (bl_aether map_id2bl act x (bl_dura map_id2bl act x sd).0).0,
        (bl_dura map_id2bl act x sd).1
            ++ (bl_aether map_id2bl act x (bl_dura map_id2bl act x sd).0).1,
      )
  unfolding bl_tick
  bl_tick-used x sd used =
      let r = bl_dura map_id2bl act x sd in
      let a = bl_aether map_id2bl act x r.0 in
      ap (λ b. if b then (sd, []) else (a.0, r.1 ++ a.1)) used

  bl_dura-over :
      (x : ℕ) (sd : Bearer)
      → leb_ℤ (slot_of x sd.dura_aether).duration (pos 0) ≡ true
      → bl_dura map_id2bl act x sd ≡ (sd, [])
  unfolding bl_dura
  bl_dura-over x sd over =
      let s = slot_of x sd.dura_aether in
      let r = bl_expire map_id2bl act x s (behind_casts x sd) in
      ap (λ b. if b then (sd, []) else (r.0, cast_reports map_id2bl (while_cast 0) s ++ r.1)) over

  bl_dura-runs :
      (x : ℕ) (sd : Bearer)
      → leb_ℤ (slot_of x sd.dura_aether).duration (pos 0) ≡ false
      → bl_dura map_id2bl act x sd ≡ (
        (bl_expire map_id2bl act x (slot_of x sd.dura_aether) (behind_casts x sd)).0,
        cast_reports map_id2bl (while_cast 0) (slot_of x sd.dura_aether)
            ++ (bl_expire map_id2bl act x (slot_of x sd.dura_aether) (behind_casts x sd)).1,
      )
  unfolding bl_dura
  bl_dura-runs x sd runs =
      let s = slot_of x sd.dura_aether in
      let r = bl_expire map_id2bl act x s (behind_casts x sd) in
      ap (λ b. if b then (sd, []) else (r.0, cast_reports map_id2bl (while_cast 0) s ++ r.1)) runs

  dura_half-over :
      (s : SkillInfo) → leb_ℤ s.duration (pos 0) ≡ true → dura_half map_id2bl s ≡ (s, [])
  unfolding dura_half
  dura_half-over s over = rw (dura_half, over) refl

  dura_half-runs :
      (s : SkillInfo)
      → leb_ℤ s.duration (pos 0) ≡ false
      → dura_half map_id2bl s ≡ (
        (still_expire s (counted s)).0,
        cast_reports map_id2bl (while_cast 0) s ++ (still_expire s (counted s)).1,
      )
  unfolding dura_half
  dura_half-runs s runs = elim (Bool-cases (leb_ℤ (s.duration -ℤ pos 1000) (pos 0))) [
    | inl over ↦ rw (dura_half, runs, over) refl
    | inr lasts ↦
        rw (dura_half, runs, lasts)
          (ap (λ (l : List Report). (counted s, l))
            (sym (append-nil (cast_reports map_id2bl (while_cast 0) s))))
  ]

  still_tick-free : (s : SkillInfo) → (s.id == 0) ≡ true → still_tick map_id2bl s ≡ (s, [])
  unfolding still_tick
  still_tick-free s free = rw (still_tick, free) refl

  still_tick-used :
      (s : SkillInfo)
      → (s.id == 0) ≡ false
      → still_tick map_id2bl s ≡ (
        (aether_half map_id2bl (dura_half map_id2bl s).0).0,
        (dura_half map_id2bl s).1 ++ (aether_half map_id2bl (dura_half map_id2bl s).0).1,
      )
  unfolding still_tick
  still_tick-used s used = rw (still_tick, used) refl

  module _ (before behind : List SkillInfo) where
    abbrev x : ℕ
    x = length before

    -- The slots have `s` there.
    abbrev Holds : SkillInfo → Bearer → Type 0
    Holds s sd = sd.dura_aether ≡ before ++ s ∷ behind

    -- What a step made of the player, and reported, is what `want` says of the slot.
    abbrev Gives : Bearer × List Report → SkillInfo × List Report → Type 0
    Gives r want = Holds want.0 r.0 × (r.1 ≡ want.1)

    put-there : (s t : SkillInfo) (sd : Bearer) → Holds t sd → Holds s (put x s sd)
    put-there s t sd e = ap (set_slot x s) e ∙ set_slot-append before t s behind

    read-there : (s : SkillInfo) (sd : Bearer) → Holds s sd → slot_of x sd.dura_aether ≡ s
    read-there s sd e = ap (slot_of x) e ∙ slot_of-append before s behind

    expire-quiet :
        (s t : SkillInfo) (sd : Bearer)
        → Holds t sd
        → Gives (bl_expire map_id2bl act x s sd) (still_expire s t)
    unfolding bl_expire
    expire-quiet s t sd e = rw (read-there t sd e) (elim (Bool-cases (leb_ℤ t.duration (pos 0))) [
      | inl over ↦
          let done = record t {
            id = if leb_ℤ t.aether (pos 0) && leb_ℤ (pos 0) t.aether then 0 else t.id;
            duration = pos 0;
            caster_id = 0;
            animation = 0;
          } in
          rw over (
            perform-quiet (uncast_report map_id2bl s ∷ []) (put x done sd) ∙ put-there done t sd e,
            refl,
          )
      | inr lasts ↦ rw lasts (e, refl)
    ])

    runs-quiet :
        (s : SkillInfo) (sd : Bearer)
        → Holds s sd
        → Gives
            (bl_expire map_id2bl act x (slot_of x sd.dura_aether) (behind_casts x sd))
            (still_expire s (counted s))
    runs-quiet s sd e =
        let casts = cast_reports map_id2bl (while_cast 0) s in
        rw (read-there s sd e) (
          expire-quiet s (counted s) (perform map_id2bl act casts (put x (counted s) sd))
            (perform-quiet casts (put x (counted s) sd) ∙ put-there (counted s) s sd e))

    dura-quiet :
        (s : SkillInfo) (sd : Bearer)
        → Holds s sd
        → Gives (bl_dura map_id2bl act x sd) (dura_half map_id2bl s)
    dura-quiet s sd e =
        let same = ap (λ (t : SkillInfo). leb_ℤ t.duration (pos 0)) (read-there s sd e) in
        elim (Bool-cases (leb_ℤ s.duration (pos 0))) [
          | inl over ↦ rw (bl_dura-over x sd (same ∙ over), dura_half-over s over) (e, refl)
          | inr runs ↦
              let r = runs-quiet s sd e in
              rw (bl_dura-runs x sd (same ∙ runs), dura_half-runs s runs)
                (r.0, ap₂ ◌++◌ (ap (cast_reports map_id2bl (while_cast 0)) (read-there s sd e)) r.1)
        ]

    aether-quiet :
        (s : SkillInfo) (sd : Bearer)
        → Holds s sd
        → Gives (bl_aether map_id2bl act x sd) (aether_half map_id2bl s)
    unfolding bl_aether
    aether-quiet s sd e =
        rw (read-there s sd e) (put-there (aether_half map_id2bl s).0 s sd e, refl)

    tick-quiet :
        (s : SkillInfo) (sd : Bearer)
        → Holds s sd
        → Gives (bl_tick map_id2bl act x sd) (still_tick map_id2bl s)
    tick-quiet s sd e =
        let d = dura-quiet s sd e in
        let r = bl_dura map_id2bl act x sd in
        let a = aether-quiet (dura_half map_id2bl s).0 r.0 d.0 in
        let same = ap (λ (t : SkillInfo). t.id == 0) (read-there s sd e) in
        elim (Bool-cases (s.id == 0)) [
          | inl free ↦ rw (bl_tick-free x sd (same ∙ free), still_tick-free s free) (e, refl)
          | inr used ↦
              rw (bl_tick-used x sd (same ∙ used), still_tick-used s used) (a.0, ap₂ ◌++◌ d.1 a.1)
        ]

  -- The loop over the slots behind `before` ticks each of them.
  pub slots_loop-quiet :
      (before slots : List SkillInfo) (sd : Bearer)
      → sd.dura_aether ≡ before ++ slots
      → ((slots_loop map_id2bl act (length before) (length slots) sd).0.dura_aether
          ≡ before ++ (each (still_tick map_id2bl) slots).0)
        × ((slots_loop map_id2bl act (length before) (length slots) sd).1
            ≡ (each (still_tick map_id2bl) slots).1)
  unfolding slots_loop each
  slots_loop-quiet before [] sd e = (e, refl)
  slots_loop-quiet before (s ∷ slots) sd e =
      let t = tick-quiet before slots s sd e in
      let s' = (still_tick map_id2bl s).0 in
      let sd' = (bl_tick map_id2bl act (length before) sd).0 in
      let ih =
        slots_loop-quiet (before ++ s' ∷ []) slots sd'
          (t.0 ∙ sym (append_assoc before (s' ∷ []) slots)) in
      let next : length (before ++ s' ∷ []) ≡ length before + 1 = length-append before (s' ∷ []) in
      (
        ap (λ n. (slots_loop map_id2bl act n (length slots) sd').0.dura_aether) (sym next)
            ∙ ih.0
            ∙ append_assoc before (s' ∷ []) (each (still_tick map_id2bl) slots).0,
        ap₂ ◌++◌ t.1
            (ap (λ n. (slots_loop map_id2bl act n (length slots) sd').1) (sym next) ∙ ih.1),
      )
