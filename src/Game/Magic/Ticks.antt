-- ===== src/Game/Magic/Ticks.antt =====
-- Ticks that come again and again: what they do to a list of slots is what they do to each of them.
use yuri.Base.{ℕ, zero, suc, ◌+◌, ◌≡◌, refl, ap, ap₂, ◌∙◌, arith, List, [], ◌∷◌, ◌++◌, map}
use yuri.Game.Magic.Slot.{
  SkillInfo, Hook, while_cast, while_passive, while_equipped, uncast, recast, Report, script,
  send_duration, send_aether, sendanimation,
}
use yuri.Game.Magic.Timers.{each}

abbrev is_uncast : Hook → ℕ
is_uncast uncast = 1
is_uncast recast = 0
is_uncast (while_cast k) = 0
is_uncast (while_passive k) = 0
is_uncast (while_equipped k) = 0

-- How many spells are reported to end.
abbrev pub uncasts : List Report → ℕ
uncasts [] = 0
uncasts (script hook id caster ∷ rest) = is_uncast hook + uncasts rest
uncasts (send_duration id ∷ rest) = uncasts rest
uncasts (send_aether id ∷ rest) = uncasts rest
uncasts (sendanimation a ∷ rest) = uncasts rest

pub uncasts-append : (xs ys : List Report) → uncasts (xs ++ ys) ≡ uncasts xs + uncasts ys
uncasts-append [] ys = omega arith
uncasts-append (script hook id caster ∷ xs) ys = omega (arith, uncasts-append xs ys)
uncasts-append (send_duration id ∷ xs) ys = uncasts-append xs ys
uncasts-append (send_aether id ∷ xs) ys = uncasts-append xs ys
uncasts-append (sendanimation a ∷ xs) ys = uncasts-append xs ys

abbrev pub sum_of : (SkillInfo → ℕ) → List SkillInfo → ℕ
sum_of f [] = 0
sum_of f (s ∷ slots) = f s + sum_of f slots

module _ (tick : SkillInfo → SkillInfo × List Report) where
  -- So many ticks of one slot.
  unfoldable pub ticks : ℕ → SkillInfo → SkillInfo × List Report
  ticks zero s = (s, [])
  ticks (suc n) s = let before = ticks n s in let now = tick before.0 in (now.0, before.1 ++ now.1)

  -- So many ticks of them all.
  unfoldable pub rounds : ℕ → List SkillInfo → List SkillInfo × List Report
  rounds zero slots = (slots, [])
  rounds (suc n) slots =
      let before = rounds n slots in let now = each tick before.0 in (now.0, before.1 ++ now.1)

  each_state :
      (g : SkillInfo → SkillInfo) (slots : List SkillInfo)
      → (each tick (map g slots)).0 ≡ map (λ s. (tick (g s)).0) slots
  unfolding each
  each_state g [] = refl
  each_state g (s ∷ slots) = ap (◌∷◌ (tick (g s)).0) (each_state g slots)

  uncasts-each :
      (g : SkillInfo → SkillInfo) (slots : List SkillInfo)
      → uncasts (each tick (map g slots)).1 ≡ sum_of (λ s. uncasts (tick (g s)).1) slots
  unfolding each
  uncasts-each g [] = refl
  uncasts-each g (s ∷ slots) =
      uncasts-append (tick (g s)).1 (each tick (map g slots)).1
      ∙ ap (◌+◌ (uncasts (tick (g s)).1)) (uncasts-each g slots)

  map_same : (slots : List SkillInfo) → slots ≡ map (λ s. s) slots
  map_same [] = refl
  map_same (s ∷ slots) = ap (◌∷◌ s) (map_same slots)

  sum_zero : (slots : List SkillInfo) → 0 ≡ sum_of (λ s. 0) slots
  sum_zero [] = refl
  sum_zero (s ∷ slots) = omega (arith, sum_zero slots)

  pub rounds-ticks :
      (n : ℕ) (slots : List SkillInfo) → (rounds n slots).0 ≡ map (λ s. (ticks n s).0) slots
  unfolding rounds ticks
  rounds-ticks zero slots = map_same slots
  rounds-ticks (suc n) slots =
      ap (λ l. (each tick l).0) (rounds-ticks n slots) ∙ each_state (λ s. (ticks n s).0) slots

  now :
      (n : ℕ) (slots : List SkillInfo)
      → uncasts (each tick (rounds n slots).0).1
        ≡ sum_of (λ s. uncasts (tick (ticks n s).0).1) slots
  now n slots =
      ap (λ l. uncasts (each tick l).1) (rounds-ticks n slots)
      ∙ uncasts-each (λ s. (ticks n s).0) slots

  sum_of_split :
      (n : ℕ) (slots : List SkillInfo)
      → sum_of (λ s. uncasts (ticks n s).1) slots
          + sum_of (λ s. uncasts (tick (ticks n s).0).1) slots
        ≡ sum_of (λ s. uncasts (ticks (suc n) s).1) slots
  unfolding ticks
  sum_of_split n [] = omega arith
  sum_of_split n (s ∷ slots) =
      omega (arith, sum_of_split n slots, uncasts-append (ticks n s).1 (tick (ticks n s).0).1)

  pub uncasts-rounds :
      (n : ℕ) (slots : List SkillInfo)
      → uncasts (rounds n slots).1 ≡ sum_of (λ s. uncasts (ticks n s).1) slots
  unfolding rounds ticks
  uncasts-rounds zero slots = sum_zero slots
  uncasts-rounds (suc n) slots =
      uncasts-append (rounds n slots).1 (each tick (rounds n slots).0).1
      ∙ ap₂ ◌+◌ (uncasts-rounds n slots) (now n slots)
      ∙ sum_of_split n slots
