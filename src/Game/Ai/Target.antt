-- ===== src/Game/Ai/Target.antt =====
-- `rust_mob_find_target`, for one player and for those of an area, and `mob_resolve_target` of
-- src/game/mob.rs.
use yuri.Base.{
  ℕ, ◌%◌, Bool, true, false, not, ◌&&◌, ◌||◌, List, [], ◌∷◌, Option, none, some, if◌then◌else◌, leb,
  ◌==◌,
}
use yuri.Base.Int.{ℤ, pos, ltb_ℤ}
use yuri.Game.Walk.View.{same_int}
use yuri.Game.Registry.Keys.{same_key}
use yuri.Game.Magic.Slot.{SkillInfo}
use yuri.Game.Ai.Brain.{Brain, MobDb, mob_dead}

-- The part of a player, whose `bl.id` and `status.id` are the same, and the number that `randomMT` gives for him, of 24 bits.
pub record Sighted : Type 0 where
  pub id : ℕ
  pub state : ℤ
  pub gm_level : ℤ
  pub dura_aether : List SkillInfo
  pub random : ℕ

abbrev pub sneak : List ℕ
sneak = 115 ∷ 110 ∷ 101 ∷ 97 ∷ 107 ∷ []

abbrev pub cloak : List ℕ
cloak = 99 ∷ 108 ∷ 111 ∷ 97 ∷ 107 ∷ []

abbrev pub hide : List ℕ
hide = 104 ∷ 105 ∷ 100 ∷ 101 ∷ []

-- What a spell's name makes of the number; `none` is a null name.
abbrev pub hidden_by : Option (List ℕ) → ℕ → ℕ
hidden_by none invis = invis
hidden_by (some name) invis =
    if same_key name hide
    then 3
    else if same_key name cloak
    then 2
    else if same_key name sneak
    then 1
    else invis

-- The loop over the slots: the last spell that hides counts. `name` is `magicdb_name`.
unfoldable pub invisible : (ℕ → Option (List ℕ)) → List SkillInfo → ℕ → ℕ
invisible name [] invis = invis
invisible name (p ∷ rest) invis =
    invisible name rest (if ltb_ℤ (pos 0) p.duration then hidden_by (name p.id) invis else invis)

-- Whether a monster with `seeinvis` sees who hides so.
abbrev pub sees : ℤ → ℕ → Bool
sees seeinvis invis =
    if invis == 1
    then same_int seeinvis (pos 1) || same_int seeinvis (pos 3) || same_int seeinvis (pos 5)
    else if invis == 2
    then same_int seeinvis (pos 2) || same_int seeinvis (pos 3) || same_int seeinvis (pos 5)
    else if invis == 3
    then same_int seeinvis (pos 4) || same_int seeinvis (pos 5)
    else true

abbrev pub seeinvis_of : Option MobDb → ℤ
seeinvis_of none = pos 0
seeinvis_of (some d) = d.seeinvis

unfoldable pub mob_find_target : (ℕ → Option (List ℕ)) → Sighted → Brain → Brain
unfolding invisible
mob_find_target name sd b =
    let invis = invisible name sd.dura_aether 0 in
    if not (sees (seeinvis_of b.data_) invis)
    then b
    else if same_int sd.state (pos 1)
    then b
    else if not (b.confused == 0) && b.confused_target == sd.id
    then b
    else if not (b.target == 0)
    then (if leb (sd.random % 1000) 499 && ltb_ℤ sd.gm_level (pos 50)
        then record b { target = sd.id }
        else b)
    else if ltb_ℤ sd.gm_level (pos 50)
    then record b { target = sd.id }
    else b

-- `map_foreachinarea`, for the players of the area in the order of the visits.
unfoldable pub search_area : (ℕ → Option (List ℕ)) → List Sighted → Brain → Brain
unfolding mob_find_target
search_area name [] b = b
search_area name (sd ∷ rest) b = search_area name rest (mob_find_target name sd b)

-- What `map_id2bl` finds.
pub data Foe : Type 0 where
  mob_foe : (m : ℕ) → (state : ℕ) → Foe
  pc_foe : (m : ℕ) → (state : ℤ) → Foe
  other_foe : (m : ℕ) → Foe

abbrev pub map_of : Foe → ℕ
map_of (mob_foe m state) = m
map_of (pc_foe m state) = m
map_of (other_foe m) = m

abbrev pub is_dead : Foe → Bool
is_dead (mob_foe m state) = state == mob_dead
is_dead (pc_foe m state) = same_int state (pos 1)
is_dead (other_foe m) = false

abbrev pub forget : Brain → Brain
forget b = record b { target = 0; attacker = 0 }

abbrev pub resolved : Option Foe → Brain → Option Foe × Brain
resolved none b = (none, forget b)
resolved (some foe) b =
    if not (map_of foe == b.m)
    then (none, forget b)
    else if is_dead foe
    then (none, forget b)
    else (some foe, b)

unfoldable pub mob_resolve_target : (ℕ → Option Foe) → Brain → Option Foe × Brain
mob_resolve_target id2bl b = resolved (id2bl b.target) b
