-- ===== src/Game/Ai/Hiding.antt =====
-- Who is hidden from whom, as a table, for the test of invisibility in `rust_mob_find_target` of
-- src/game/mob.rs.
use yuri.Base.{
  ℕ, ◌≡◌, ◌∙◌, ap, refl, true, false, ◌||◌, Bool, Bool-cases, inl, inr, List, [], ◌∷◌, Option, none,
  some, if◌then◌else◌,
}
use yuri.Base.Int.{ℤ, pos, ltb_ℤ}
use yuri.Game.Walk.View.{same_int}
use yuri.Game.Registry.Keys.{same_key}
use yuri.Game.Magic.Slot.{SkillInfo}
use yuri.Game.Ai.Target.{sneak, cloak, hide, hidden_by, invisible, sees}

-- A way to hide.
pub data Way : Type 0 where
  sneaks cloaks hides : Way

-- The way that a spell's name stands for.
abbrev pub way_of_name : Option (List ℕ) → Option Way
way_of_name none = none
way_of_name (some key) =
    if same_key key hide
    then some hides
    else if same_key key cloak
    then some cloaks
    else if same_key key sneak
    then some sneaks
    else none

-- The way in which a slot hides its player: its spell runs and has the name of a way.
abbrev pub way_of : (ℕ → Option (List ℕ)) → SkillInfo → Option Way
way_of name p = if ltb_ℤ (pos 0) p.duration then way_of_name (name p.id) else none

abbrev pub or_else : Option Way → Option Way → Option Way
or_else (some w) before = some w
or_else none before = before

-- The way of the last slot that has one.
unfoldable pub last_way : (ℕ → Option (List ℕ)) → List SkillInfo → Option Way
last_way name [] = none
last_way name (p ∷ rest) = or_else (last_way name rest) (way_of name p)

abbrev pub one_of : ℤ → List ℕ → Bool
one_of seeinvis [] = false
one_of seeinvis (n ∷ ns) = same_int seeinvis (pos n) || one_of seeinvis ns

-- The numbers of `seeinvis` that see through a way.
abbrev pub visible_to : ℤ → Option Way → Bool
visible_to seeinvis none = true
visible_to seeinvis (some sneaks) = one_of seeinvis (1 ∷ 3 ∷ 5 ∷ [])
visible_to seeinvis (some cloaks) = one_of seeinvis (2 ∷ 3 ∷ 5 ∷ [])
visible_to seeinvis (some hides) = one_of seeinvis (4 ∷ 5 ∷ [])

-- The code's number of a way.
abbrev number : Option Way → ℕ → ℕ
number none invis = invis
number (some sneaks) invis = 1
number (some cloaks) invis = 2
number (some hides) invis = 3

number-or_else :
    (w before : Option Way) (invis : ℕ)
    → number w (number before invis) ≡ number (or_else w before) invis
number-or_else none before invis = refl
number-or_else (some sneaks) before invis = refl
number-or_else (some cloaks) before invis = refl
number-or_else (some hides) before invis = refl

hidden_by-number :
    (key : Option (List ℕ)) (invis : ℕ) → hidden_by key invis ≡ number (way_of_name key) invis
hidden_by-number none invis = refl
hidden_by-number (some key) invis = elim (Bool-cases (same_key key hide)) [
  | inl a ↦ rw a refl
  | inr a ↦ elim (Bool-cases (same_key key cloak)) [
    | inl b ↦ rw (a, b) refl
    | inr b ↦ elim (Bool-cases (same_key key sneak)) [
      | inl c ↦ rw (a, b, c) refl
      | inr c ↦ rw (a, b, c) refl
    ]
  ]
]

slot-number :
    (name : ℕ → Option (List ℕ)) (p : SkillInfo) (invis : ℕ)
    → (if ltb_ℤ (pos 0) p.duration then hidden_by (name p.id) invis else invis)
      ≡ number (way_of name p) invis
slot-number name p invis = elim (Bool-cases (ltb_ℤ (pos 0) p.duration)) [
  | inl on ↦ rw on (hidden_by-number (name p.id) invis)
  | inr off ↦ rw off refl
]

invisible-number :
    (name : ℕ → Option (List ℕ)) (slots : List SkillInfo) (invis : ℕ)
    → invisible name slots invis ≡ number (last_way name slots) invis
unfolding invisible last_way
invisible-number name [] invis = refl
invisible-number name (p ∷ rest) invis =
    invisible-number name rest _
    ∙ ap (number (last_way name rest)) (slot-number name p invis)
    ∙ number-or_else (last_way name rest) (way_of name p) invis

or_false : (a b : Bool) → (a || b) ≡ (a || (b || false))
or_false true b = refl
or_false false true = refl
or_false false false = refl

or_false3 : (a b c : Bool) → (a || b || c) ≡ (a || (b || (c || false)))
or_false3 true b c = refl
or_false3 false b c = or_false b c

sees-number : (seeinvis : ℤ) (w : Option Way) → sees seeinvis (number w 0) ≡ visible_to seeinvis w
sees-number s none = refl
sees-number s (some sneaks) =
    or_false3 (same_int s (pos 1)) (same_int s (pos 3)) (same_int s (pos 5))
sees-number s (some cloaks) =
    or_false3 (same_int s (pos 2)) (same_int s (pos 3)) (same_int s (pos 5))
sees-number s (some hides) = or_false (same_int s (pos 4)) (same_int s (pos 5))

-- The code sees a player exactly if the last way of his slots is one that the monster sees through.
pub sees-invisible :
    (name : ℕ → Option (List ℕ)) (seeinvis : ℤ) (slots : List SkillInfo)
    → sees seeinvis (invisible name slots 0) ≡ visible_to seeinvis (last_way name slots)
sees-invisible name seeinvis slots =
    ap (sees seeinvis) (invisible-number name slots 0) ∙ sees-number seeinvis (last_way name slots)
