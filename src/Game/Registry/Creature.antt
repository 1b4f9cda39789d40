-- ===== src/Game/Registry/Creature.antt =====
-- The registries of a monster (src/game/mob.rs) and of an NPC (src/game/npc.rs). Both cut a new key
-- to 63 bytes.
use yuri.Base.{ℕ, not, ◌&&◌, List, [], take}
use yuri.Base.Int.{ℤ, pos}
use yuri.Game.Registry.Keys.{same_key}
use yuri.Game.Registry.Slots.{Key, Slot, read_slots, set_slots}
use yuri.Game.Registry.Player.{is_zero}

abbrev pub max_globalmobreg : ℕ
max_globalmobreg = 50

abbrev pub npc_registry_len : ℕ
npc_registry_len = 100

unfoldable pub mob_readglobalreg : Key → List (Slot ℤ) → ℤ
unfolding read_slots
mob_readglobalreg reg rs = read_slots (pos 0) max_globalmobreg (λ a. same_key a reg) rs

unfoldable pub mob_setglobalreg : Key → ℤ → List (Slot ℤ) → List (Slot ℤ) × ℕ
unfolding set_slots is_zero
mob_setglobalreg reg val rs =
    set_slots 1 max_globalmobreg (λ a. same_key a reg) (take 63 reg) (is_zero val) val rs

unfoldable pub npc_readglobalreg : Key → List (Slot ℤ) → ℤ
unfolding read_slots same_key
npc_readglobalreg reg rs =
    read_slots (pos 0) npc_registry_len (λ a. not (same_key a []) && same_key a reg) rs

unfoldable pub npc_setglobalreg : Key → ℤ → List (Slot ℤ) → List (Slot ℤ) × ℕ
unfolding set_slots is_zero same_key
npc_setglobalreg reg val rs =
    set_slots 1 npc_registry_len (λ a. not (same_key a []) && same_key a reg) (take 63 reg)
      (is_zero val) val rs
