-- ===== src/Game/Magic/Ends.antt =====
-- The spells on a player over any number of calls of `rust_bl_duratimer`.
use yuri.Base.{
  ℕ, zero, suc, ◌+◌, ◌-◌, ◌*◌, ◌<◌, ◌≡◌, ◌⊎◌, inl, inr, refl, ap, ap₂, sym, ◌∙◌, arith, true, false,
  ◌&&◌, List, [], ◌∷◌, ◌++◌, map, length, Option, none, Bool-cases, if◌then◌else◌, leb, ltb, ◌==◌,
  All,
}
use yuri.Base.Int.{ℤ, pos, pos_part}
use yuri.Game.Magic.Slot.{SkillInfo, Caster, Hook, while_passive, while_equipped, Report, script}
use yuri.Game.Magic.Duration.{id_at, scripts_loop, slots_loop, bl_duratimer}
use yuri.Game.Magic.Still.{still_tick, scripts_loop-quiet, slots_loop-quiet}
use yuri.Game.Magic.Timers.{each, Bearer}
use yuri.Game.Magic.Ticks.{
  uncasts, uncasts-append, sum_of, ticks, rounds, rounds-ticks, uncasts-rounds,
}
use yuri.Game.Magic.Elapsed.{lasting, left_of, still_tick_idle, ticks_lem}

-- The milliseconds that are left.
abbrev pub dura : SkillInfo → ℕ
dura s = pos_part s.duration

abbrev pub rest : SkillInfo → ℕ
rest s = pos_part s.aether

-- A slot that is free, or whose times are not negative and not both over.
abbrev pub Timed : SkillInfo → Type 0
Timed s =
    ((s.id == 0) ≡ true)
    ⊎ (((s.id == 0) ≡ false)
        × (s.duration ≡ pos (dura s))
        × (s.aether ≡ pos (rest s))
        × (0 < dura s + rest s))

-- A slot after so many seconds.
abbrev pub after : ℕ → SkillInfo → SkillInfo
after n s =
    if s.id == 0 then s else left_of s (dura s) (rest s) (dura s - 1000 * n) (rest s - 1000 * n)

-- Whether its spell has ended by then.
abbrev pub ended : ℕ → SkillInfo → ℕ
ended n s = if s.id == 0 then 0 else if ltb 0 (dura s) && leb (dura s) (1000 * n) then 1 else 0

module _ (map_id2bl : ℕ → Caster) where
  idle : (n : ℕ) (s : SkillInfo) → (s.id == 0) ≡ true → ticks (still_tick map_id2bl) n s ≡ (s, [])
  unfolding ticks
  idle zero s free = refl
  idle (suc n) s free =
      ap
        (λ (r : SkillInfo × List Report).
          ((still_tick map_id2bl r.0).0, r.1 ++ (still_tick map_id2bl r.0).1))
        (idle n s free)
      ∙ ap (λ (r : SkillInfo × List Report). (r.0, r.1)) (still_tick_idle map_id2bl s free)

  ticks-after :
      (n : ℕ) (s : SkillInfo)
      → Timed s
      → ((ticks (still_tick map_id2bl) n s).0 ≡ after n s)
        × (uncasts (ticks (still_tick map_id2bl) n s).1 ≡ ended n s)
  ticks-after n s (inl free) = rw (idle n s free) (rw free (refl, refl))
  ticks-after n s (inr (used, d, a, more)) =
      let e : s ≡ lasting s (dura s) (rest s) =
        ap₂ (λ (x y : ℤ). record s { duration = x; aether = y }) d a in
      let there = ticks_lem map_id2bl n s (dura s) (rest s) used more in
      rw used (
        ap (λ (x : SkillInfo). (ticks (still_tick map_id2bl) n x).0) e ∙ there.0,
        ap (λ (x : SkillInfo). uncasts (ticks (still_tick map_id2bl) n x).1) e ∙ there.1,
      )

  All-after :
      (n : ℕ) (slots : List SkillInfo)
      → All Timed slots
      → (map (λ s. (ticks (still_tick map_id2bl) n s).0) slots ≡ map (after n) slots)
        × (sum_of (λ s. uncasts (ticks (still_tick map_id2bl) n s).1) slots
            ≡ sum_of (ended n) slots)
  All-after n [] timed = (refl, refl)
  All-after n (s ∷ slots) timed =
      let here = ticks-after n s timed.0 in
      let there = All-after n slots timed.1 in (ap₂ ◌∷◌ here.0 there.0, ap₂ ◌+◌ here.1 there.1)

module _ (map_id2bl : ℕ → Caster) (act : Hook → ℕ → Option ℕ → Bearer → Bearer) where
  -- The calls of the timer, one each second.
  unfoldable pub calls : ℕ → Bearer → Bearer × List Report
  calls zero sd = (sd, [])
  calls (suc n) sd =
      let (before, reports) = calls n sd in
      let (sd', now) = bl_duratimer map_id2bl act before in (sd', reports ++ now)

  no_more : (n : ℕ) → 0 + (0 + n) ≡ n
  no_more n = omega arith

  -- The scripts for what is learned and worn end no spell.
  scripts_no_uncast :
      (hook : Hook) (ids : Bearer → List ℕ) (x n : ℕ) (sd : Bearer)
      → ((id : ℕ) → uncasts (script hook id none ∷ []) ≡ 0)
      → uncasts (scripts_loop map_id2bl act hook ids x n sd).1 ≡ 0
  unfolding scripts_loop
  scripts_no_uncast hook ids x zero sd other = refl
  scripts_no_uncast hook ids x (suc n) sd other =
      let id = id_at x (ids sd) in
      elim (Bool-cases (id == 0)) [
        | inl free ↦ rw free (scripts_no_uncast hook ids (x + 1) n sd other)
        | inr used ↦
            let later = scripts_no_uncast hook ids (x + 1) n (act hook id none sd) other in
            let reports = (scripts_loop map_id2bl act hook ids (x + 1) n (act hook id none sd)).1 in
            rw used (uncasts-append (script hook id none ∷ []) reports ∙ ap₂ ◌+◌ (other id) later)
      ]

  module _
      (quiet : (hook : Hook) (id : ℕ) (caster : Option ℕ) (sd : Bearer)
        → (act hook id caster sd).dura_aether ≡ sd.dura_aether) where
    -- A call ticks every slot, and nothing else that it runs is an `uncast`.
    call_lem :
        (sd : Bearer)
        → ((bl_duratimer map_id2bl act sd).0.dura_aether
            ≡ (each (still_tick map_id2bl) sd.dura_aether).0)
          × (uncasts (bl_duratimer map_id2bl act sd).1
              ≡ uncasts (each (still_tick map_id2bl) sd.dura_aether).1)
    unfolding bl_duratimer
    call_lem sd =
        let r1 = scripts_loop map_id2bl act (while_passive 0) (λ b. b.skill) 0 52 sd in
        let r2 = scripts_loop map_id2bl act (while_equipped 0) (λ b. b.equip) 0 14 r1.0 in
        let still : r2.0.dura_aether ≡ sd.dura_aether =
          scripts_loop-quiet map_id2bl act quiet (while_equipped 0) (λ b. b.equip) 0 14 r1.0
          ∙ scripts_loop-quiet map_id2bl act quiet (while_passive 0) (λ b. b.skill) 0 52 sd in
        let slots = slots_loop-quiet map_id2bl act quiet [] r2.0.dura_aether r2.0 refl in
        let reports = (slots_loop map_id2bl act 0 (length r2.0.dura_aether) r2.0).1 in
        let same = ap (each (still_tick map_id2bl)) still in
        let whole : uncasts (bl_duratimer map_id2bl act sd).1
            ≡ uncasts (r1.1 ++ (r2.1 ++ reports)) =
          refl in
        let none1 = scripts_no_uncast (while_passive 0) (λ b. b.skill) 0 52 sd (λ id. refl) in
        let none2 = scripts_no_uncast (while_equipped 0) (λ b. b.equip) 0 14 r1.0 (λ id. refl) in
        (
          slots.0 ∙ ap (λ (r : List SkillInfo × List Report). r.0) same,
          whole
              ∙ uncasts-append r1.1 (r2.1 ++ reports)
              ∙ ap₂ ◌+◌ none1 (uncasts-append r2.1 reports ∙ ap₂ ◌+◌ none2 refl)
              ∙ no_more (uncasts reports)
              ∙ ap uncasts slots.1
              ∙ ap (λ (r : List SkillInfo × List Report). uncasts r.1) same,
        )

    calls-rounds :
        (n : ℕ) (sd : Bearer)
        → ((calls n sd).0.dura_aether ≡ (rounds (still_tick map_id2bl) n sd.dura_aether).0)
          × (uncasts (calls n sd).1 ≡ uncasts (rounds (still_tick map_id2bl) n sd.dura_aether).1)
    unfolding calls rounds
    calls-rounds zero sd = (refl, refl)
    calls-rounds (suc n) sd =
        let before = calls-rounds n sd in
        let sd' = (calls n sd).0 in
        let slots = (rounds (still_tick map_id2bl) n sd.dura_aether).0 in
        let same = ap (each (still_tick map_id2bl)) before.0 in
        (
          (call_lem sd').0 ∙ ap (λ (r : List SkillInfo × List Report). r.0) same,
          uncasts-append (calls n sd).1 (bl_duratimer map_id2bl act sd').1
              ∙ ap₂ ◌+◌ before.1
                  ((call_lem sd').1 ∙ ap (λ (r : List SkillInfo × List Report). uncasts r.1) same)
              ∙ sym (
                  uncasts-append (rounds (still_tick map_id2bl) n sd.dura_aether).1
                    (each (still_tick map_id2bl) slots).1),
        )

-- After any number of calls of `rust_bl_duratimer`, each slot that was in use has so many seconds less of its
-- duration and of its aether, it is free if and only if both are over, and it has neither caster nor
-- animation once its duration is over; free slots stay. So many `uncast` scripts have been run as slots
-- had a duration that is over: each one once. At first no time of a slot is negative, and a slot in use has
-- some time left; and the scripts that the calls run leave the slots as they are.
pub calls-after :
    (map_id2bl : ℕ → Caster) (act : Hook → ℕ → Option ℕ → Bearer → Bearer) (n : ℕ) (sd : Bearer)
    → ((hook : Hook) (id : ℕ) (caster : Option ℕ) (b : Bearer)
        → (act hook id caster b).dura_aether ≡ b.dura_aether)
    → All Timed sd.dura_aether
    → ((calls map_id2bl act n sd).0.dura_aether ≡ map (after n) sd.dura_aether)
      × (uncasts (calls map_id2bl act n sd).1 ≡ sum_of (ended n) sd.dura_aether)
calls-after map_id2bl act n sd quiet timed =
    let run = calls-rounds map_id2bl act quiet n sd in
    let all = All-after map_id2bl n sd.dura_aether timed in
    (
      run.0 ∙ rounds-ticks (still_tick map_id2bl) n sd.dura_aether ∙ all.0,
      run.1 ∙ uncasts-rounds (still_tick map_id2bl) n sd.dura_aether ∙ all.1,
    )
