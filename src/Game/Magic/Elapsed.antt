-- ===== src/Game/Magic/Elapsed.antt =====
-- How long a spell lasts: a slot after any number of ticks, and when its `uncast` runs.
use native.Mathlib.Nat.{add-zero}
use native.Mathlib.Decide.{dec_lt}
use yuri.Base.{
  ℕ, zero, suc, ◌+◌, ◌-◌, ◌*◌, ◌≤◌, ◌<◌, ◌≡◌, refl, ap, ap₂, ◌∙◌, arith, true, false, ◌&&◌, [],
  ◌++◌, if◌then◌else◌, leb, ltb, ◌==◌,
}
use yuri.Base.Int.{pos, ◌-ℤ◌}
use yuri.Game.Magic.Slot.{SkillInfo, Caster, while_cast, cast_reports, uncast_report, aether_half}
use yuri.Game.Magic.Still.{dura_half, still_tick}
use yuri.Game.Magic.Ticks.{uncasts, uncasts-append, ticks}

-- A slot with a duration and an aether that are left.
abbrev pub lasting : SkillInfo → ℕ → ℕ → SkillInfo
lasting s d a = record s { duration = pos d; aether = pos a }

-- What is left of a slot when its duration and its aether have come to this: it is free when both are
-- over, and has no caster and no animation when the duration is.
abbrev pub left_of : SkillInfo → ℕ → ℕ → ℕ → ℕ → SkillInfo
left_of s d a d' a' = record {
  id = if d' == 0 && a' == 0 then 0 else s.id;
  duration = pos d';
  aether = pos a';
  caster_id = if ltb 0 d && d' == 0 then 0 else s.caster_id;
  animation = if ltb 0 d && d' == 0 then 0 else s.animation;
}

module _ (map_id2bl : ℕ → Caster) where
  dura_half_lem :
      (s : SkillInfo) (d a : ℕ)
      → (dura_half map_id2bl (lasting s d a)).0 ≡ record {
        id = if ltb 0 d && d - 1000 == 0 && a == 0 then 0 else s.id;
        duration = pos (d - 1000);
        aether = pos a;
        caster_id = if ltb 0 d && d - 1000 == 0 then 0 else s.caster_id;
        animation = if ltb 0 d && d - 1000 == 0 then 0 else s.animation;
      }
  unfolding dura_half ◌-ℤ◌
  dura_half_lem s d a = ground arith

  still_tick_lem :
      (s : SkillInfo) (d a : ℕ)
      → (s.id == 0) ≡ false
      → 0 < d + a
      → (still_tick map_id2bl (lasting s d a)).0 ≡ left_of s d a (d - 1000) (a - 1000)
  unfolding still_tick ◌-ℤ◌
  still_tick_lem s d a used some_left = ground (arith, used, some_left)

  -- No spell ends while it is cast.
  cast_no_uncast : (k : ℕ) (s : SkillInfo) → uncasts (cast_reports map_id2bl (while_cast k) s) ≡ 0
  unfolding cast_reports
  cast_no_uncast k s = ground arith

  uncasts-dura_half :
      (s : SkillInfo) (d a : ℕ)
      → uncasts (dura_half map_id2bl (lasting s d a)).1 ≡ (if ltb 0 d && leb d 1000 then 1 else 0)
  unfolding dura_half ◌-ℤ◌ uncast_report
  uncasts-dura_half s d a = ground arith

  uncasts-aether_half : (s : SkillInfo) → uncasts (aether_half map_id2bl s).1 ≡ 0
  unfolding aether_half
  uncasts-aether_half s = ground arith

  still_tick_used :
      (s : SkillInfo)
      → (s.id == 0) ≡ false
      → still_tick map_id2bl s ≡ (
        (aether_half map_id2bl (dura_half map_id2bl s).0).0,
        (dura_half map_id2bl s).1 ++ (aether_half map_id2bl (dura_half map_id2bl s).0).1,
      )
  unfolding still_tick
  still_tick_used s used = rw (still_tick, used) refl

  pub still_tick_idle : (s : SkillInfo) → (s.id == 0) ≡ true → still_tick map_id2bl s ≡ (s, [])
  unfolding still_tick
  still_tick_idle s free = rw (still_tick, free) refl

  uncasts-still_tick :
      (s : SkillInfo) (d a : ℕ)
      → (s.id == 0) ≡ false
      → uncasts (still_tick map_id2bl (lasting s d a)).1 ≡ (if ltb 0 d && leb d 1000 then 1 else 0)
  uncasts-still_tick s d a used =
      let first = dura_half map_id2bl (lasting s d a) in
      ap (λ r. uncasts r.1) (still_tick_used (lasting s d a) used)
      ∙ uncasts-append first.1 (aether_half map_id2bl first.0).1
      ∙ ap₂ ◌+◌ (uncasts-dura_half s d a) (uncasts-aether_half first.0)
      ∙ add-zero _

  -- One more tick.
  next :
      (s : SkillInfo) (d a d' a' : ℕ)
      → (s.id == 0) ≡ false
      → d' ≤ d
      → ((still_tick map_id2bl (left_of s d a d' a')).0 ≡ left_of s d a (d' - 1000) (a' - 1000))
        × (uncasts (still_tick map_id2bl (left_of s d a d' a')).1
            ≡ (if ltb 0 d' && leb d' 1000 then 1 else 0))
  next s d a d' a' used fits = elim (dec_lt 0 (d' + a')) [
    | yes more ↦
        let still : ((left_of s d a d' a').id == 0) ≡ false = ground (arith, used) in
        (
          still_tick_lem (left_of s d a d' a') d' a' still more ∙ ground arith,
          uncasts-still_tick (left_of s d a d' a') d' a' still,
        )
    | no over ↦
        let free : ((left_of s d a d' a').id == 0) ≡ true = ground arith in
        rw (still_tick_idle (left_of s d a d' a') free) (ground arith, ground arith)
  ]

  -- What is left after so many ticks.
  pub ticks_lem :
      (n : ℕ) (s : SkillInfo) (d a : ℕ)
      → (s.id == 0) ≡ false
      → 0 < d + a
      → ((ticks (still_tick map_id2bl) n (lasting s d a)).0
          ≡ left_of s d a (d - 1000 * n) (a - 1000 * n))
        × (uncasts (ticks (still_tick map_id2bl) n (lasting s d a)).1
            ≡ (if ltb 0 d && leb d (1000 * n) then 1 else 0))
  unfolding ticks
  ticks_lem zero s d a used some_left = (ground arith, ground arith)
  ticks_lem (suc n) s d a used some_left =
      let before = ticks_lem n s d a used some_left in
      let now = next s d a (d - 1000 * n) (a - 1000 * n) used (omega arith) in
      let t = ticks (still_tick map_id2bl) n (lasting s d a) in
      (
        ap (λ (x : SkillInfo). (still_tick map_id2bl x).0) before.0 ∙ now.0 ∙ ground arith,
        uncasts-append t.1 (still_tick map_id2bl t.0).1
            ∙ ap₂ ◌+◌ before.1
                (ap (λ (x : SkillInfo). uncasts (still_tick map_id2bl x).1) before.0 ∙ now.1)
            ∙ ground arith,
      )
