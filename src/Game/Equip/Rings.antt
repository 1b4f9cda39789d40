-- ===== src/Game/Equip/Rings.antt =====
-- Which of two slots `rust_pc_equipscript` takes for a ring, and what goes wrong for the other pair.
use yuri.Base.{ℕ, zero, suc, ◌-◌, ◌≡◌, arith, true, false, not, ◌&&◌, ◌||◌, if◌then◌else◌, ◌==◌}
use yuri.Base.Int.{pos}
use yuri.Game.Equip.Wear.{Wearer, worn}
use yuri.Game.Equip.Script.{target_slot}

-- For an item of the left or of the right slot, the slot is one of the two, and it is in use only if both
-- are; where both are free or both in use it is the item's own.
pub target_slot_rings :
    (w : Wearer) (k : ℕ)
    → (k == 4 || k == 5) ≡ true
    → target_slot w (pos k)
      ≡ (if not (worn k w == 0) && worn (9 - k) w == 0 then pos (9 - k) else pos k)
unfolding target_slot
target_slot_rings w (suc (suc (suc (suc zero)))) ring = ground arith
target_slot_rings w (suc (suc (suc (suc (suc zero))))) ring = ground arith
target_slot_rings w k ring = absurd (ground (arith, ring))

-- An item of the left slot of the other pair, where the left one is in use and the right one is free, goes
-- to the left one.
pub target_slot_full :
    (w : Wearer)
    → (worn 6 w == 0) ≡ false
    → (worn 7 w == 0) ≡ true
    → (target_slot w (pos 6) ≡ pos 6) × (target_slot w (pos 7) ≡ pos 7)
unfolding target_slot
target_slot_full w full empty = (ground (arith, full, empty), ground (arith, full, empty))
