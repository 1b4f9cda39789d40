-- ===== src/Game/Registry/Player.antt =====
-- The registries of a player in src/game/pc.rs. Each reader and writer takes the array it works on.
use yuri.Base.{ℕ, ◌-◌, ◌^◌, Bool, false, List, [], ltb, ◌==◌, ◌%◌, if◌then◌else◌}
use yuri.Base.Int.{ℤ, pos, negsuc}
use yuri.Game.Registry.Keys.{same_key}
use yuri.Game.Registry.Slots.{Key, Slot, read_slots, set_slots}

abbrev pub max_globalreg : ℕ
max_globalreg = 5000

abbrev pub max_globalplayerreg : ℕ
max_globalplayerreg = 500

abbrev pub max_globalquestreg : ℕ
max_globalquestreg = 250

abbrev pub max_globalnpcreg : ℕ
max_globalnpcreg = 100

-- `val == 0` for a C `int`.
unfoldable pub is_zero : ℤ → Bool
is_zero (pos n) = n == 0
is_zero (negsuc n) = false

-- `val as i32` for a `c_ulong`.
unfoldable pub as_i32 : ℕ → ℤ
as_i32 val =
    let low = val % 2 ^ 32 in if ltb low (2 ^ 31) then pos low else negsuc (2 ^ 32 - 1 - low)

unfoldable pub pc_readglobalreg : Key → List (Slot ℤ) → ℤ
unfolding read_slots
pc_readglobalreg reg rs = read_slots (pos 0) max_globalplayerreg (λ a. same_key a reg) rs

unfoldable pub pc_setglobalreg : Key → ℕ → List (Slot ℤ) → List (Slot ℤ) × ℕ
unfolding set_slots as_i32
pc_setglobalreg reg val rs =
    set_slots 1 max_globalreg (λ a. same_key a reg) reg (val == 0) (as_i32 val) rs

unfoldable pub pc_readglobalregstring : Key → List (Slot (List ℕ)) → List ℕ
unfolding read_slots
pc_readglobalregstring reg rs = read_slots [] max_globalplayerreg (λ a. same_key a reg) rs

unfoldable pub pc_setglobalregstring :
    Key → List ℕ → List (Slot (List ℕ)) → List (Slot (List ℕ)) × ℕ
unfolding set_slots same_key
pc_setglobalregstring reg val rs =
    set_slots 1 max_globalplayerreg (λ a. same_key a reg) reg (same_key val []) val rs

unfoldable pub pc_readacctreg : Key → List (Slot ℤ) → ℤ
unfolding read_slots
pc_readacctreg reg rs = read_slots (pos 0) max_globalreg (λ a. same_key a reg) rs

unfoldable pub pc_setacctreg : Key → ℤ → List (Slot ℤ) → List (Slot ℤ) × ℕ
unfolding set_slots is_zero
pc_setacctreg reg val rs = set_slots 0 max_globalreg (λ a. same_key a reg) reg (is_zero val) val rs

unfoldable pub pc_readnpcintreg : Key → List (Slot ℤ) → ℤ
unfolding read_slots
pc_readnpcintreg reg rs = read_slots (pos 0) max_globalnpcreg (λ a. same_key a reg) rs

unfoldable pub pc_setnpcintreg : Key → ℤ → List (Slot ℤ) → List (Slot ℤ) × ℕ
unfolding set_slots is_zero
pc_setnpcintreg reg val rs =
    set_slots 0 max_globalnpcreg (λ a. same_key a reg) reg (is_zero val) val rs

unfoldable pub pc_readquestreg : Key → List (Slot ℤ) → ℤ
unfolding read_slots
pc_readquestreg reg rs = read_slots (pos 0) max_globalquestreg (λ a. same_key a reg) rs

unfoldable pub pc_setquestreg : Key → ℤ → List (Slot ℤ) → List (Slot ℤ) × ℕ
unfolding set_slots is_zero
pc_setquestreg reg val rs =
    set_slots 0 max_globalquestreg (λ a. same_key a reg) reg (is_zero val) val rs
