-- ===== src/Game/Magic/Starved.antt =====
-- `rust_bl_aethertimer` ends at the first slot in use that has no aether left, so that such a slot keeps
-- all behind it from being counted down.
use yuri.Base.{◌≡◌, refl, ap, ◌∙◌, arith, true, false, List, [], ◌∷◌, ◌++◌, All, ◌==◌}
use yuri.Base.Int.{pos, ltb_ℤ}
use yuri.Game.Magic.Slot.{SkillInfo, Report, send_aether}
use yuri.Game.Magic.Timers.{bl_aethertimer}

abbrev pub Free : SkillInfo → Type 0
Free s = (s.id == 0) ≡ true

past-Free :
    (before slots : List SkillInfo)
    → All Free before
    → bl_aethertimer (before ++ slots)
      ≡ (before ++ (bl_aethertimer slots).0, (bl_aethertimer slots).1)
unfolding bl_aethertimer
past-Free [] slots free = refl
past-Free (s ∷ before) slots free =
    rw free.0
      (ap (λ (r : List SkillInfo × List Report). (s ∷ r.0, r.1)) (past-Free before slots free.1))

ends_at :
    (s : SkillInfo) (slots : List SkillInfo)
    → (s.id == 0) ≡ false
    → s.aether ≡ pos 0
    → ltb_ℤ (pos 0) s.duration ≡ true
    → bl_aethertimer (s ∷ slots) ≡ (s ∷ slots, send_aether s.id ∷ [])
unfolding bl_aethertimer
ends_at s slots used none_left lasts = ground (arith, used, none_left, lasts)

-- Where the first slot in use holds a spell that lasts but has no aether, the timer changes no slot, though
-- others behind have an aether, and it tells the player that this spell's aether is over.
pub bl_aethertimer_starved :
    (before slots : List SkillInfo) (s : SkillInfo)
    → All Free before
    → (s.id == 0) ≡ false
    → s.aether ≡ pos 0
    → ltb_ℤ (pos 0) s.duration ≡ true
    → bl_aethertimer (before ++ s ∷ slots) ≡ (before ++ s ∷ slots, send_aether s.id ∷ [])
bl_aethertimer_starved before slots s free used none_left lasts =
    past-Free before (s ∷ slots) free
    ∙ ap (λ (r : List SkillInfo × List Report). (before ++ r.0, r.1))
        (ends_at s slots used none_left lasts)
