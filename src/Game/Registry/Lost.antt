-- ===== src/Game/Registry/Lost.antt =====
-- The registry of a player's numbers in src/game/pc.rs: the writer searches the whole array, the reader
-- its first 500 slots.
use yuri.Base.{
  ℕ, zero, suc, ◌≡◌, refl, Bool, true, false, ◌||◌, List, [], ◌∷◌, Option, none, some,
  if◌then◌else◌, arith, ◌⊎◌, inl, inr, Option-cases, ◌==◌,
}
use yuri.Base.Int.{ℤ, pos}
use yuri.Game.Registry.Keys.{same_key}
use yuri.Game.Registry.Slots.{Key, Slot, read_slots, update_slots, claim_slots, any_slot}
use yuri.Game.Registry.Stored.{room, set-equals}
use yuri.Game.Registry.Kept.{update-none, claim-none, update-some, claim-some}
use yuri.Game.Registry.Player.{pc_readglobalreg, pc_setglobalreg, as_i32}

module _ {V : Type 0} (d v : V) (j : Key) where
  -- An update leaves the slots before the first that has the key as they are.
  update-behind :
      (n m : ℕ) (cleared : Bool) (rs rs' : List (Slot V)) (hit : Key → Bool)
      → any_slot n (λ a. same_key a j) rs ≡ false
      → update_slots m (λ a. same_key a j) cleared v rs ≡ some rs'
      → read_slots d n hit rs' ≡ read_slots d n hit rs
  unfolding read_slots any_slot update_slots
  update-behind zero m cleared rs rs' hit none_before h = refl
  update-behind (suc n) zero cleared rs rs' hit none_before h = cc
  update-behind (suc n) (suc m) cleared [] rs' hit none_before h = cc
  update-behind (suc n) (suc m) cleared (r ∷ rs) rs' hit none_before h =
      elim (Option-cases (update_slots m (λ a. same_key a j) cleared v rs)) [
        | inl gone ↦ absurd (ground (arith, h, none_before, gone))
        | inr (rest, e1) ↦
            let e : rs' ≡ r ∷ rest = ground (arith, h, none_before, e1) in
            rw e (ground (arith, none_before, update-behind n m cleared rs rest hit, e1))
      ]

  -- A claim leaves the slots before the first empty one as they are.
  claim-behind :
      (n m : ℕ) (rs rs' : List (Slot V)) (hit : Key → Bool)
      → any_slot n (λ a. same_key a []) rs ≡ false
      → claim_slots m j v rs ≡ some rs'
      → read_slots d n hit rs' ≡ read_slots d n hit rs
  unfolding read_slots any_slot claim_slots
  claim-behind zero m rs rs' hit none_before h = refl
  claim-behind (suc n) zero rs rs' hit none_before h = cc
  claim-behind (suc n) (suc m) [] rs' hit none_before h = cc
  claim-behind (suc n) (suc m) (r ∷ rs) rs' hit none_before h =
      elim (Option-cases (claim_slots m j v rs)) [
        | inl gone ↦ absurd (ground (arith, h, none_before, gone))
        | inr (rest, e1) ↦
            let e : rs' ≡ r ∷ rest = ground (arith, h, none_before, e1) in
            rw e (ground (arith, none_before, claim-behind n m rs rest hit, e1))
      ]

or_false : (a b : Bool) → (a || b) ≡ false → (a ≡ false) × (b ≡ false)
or_false true b h = cc
or_false false b h = (refl, h)

or_code : (a b : Bool) → (a ≡ true) ⊎ (b ≡ true) → ◌≡◌ {A = ℕ} 0 (if a || b then 0 else 1)
or_code a b h = ground arith

-- A number is lost where none of the first 500 slots has its key or is empty: whatever is read
-- afterwards is what was read before, also under the key itself, and the return code is 0 if one of the
-- 5000 slots of the array has the key or is empty.
pub pc_setglobalreg_lost :
    (reg other : Key) (val : ℕ) (rs : List (Slot ℤ))
    → room 500 reg rs ≡ false
    → (pc_readglobalreg other (pc_setglobalreg reg val rs).0 ≡ pc_readglobalreg other rs)
      × ((pc_setglobalreg reg val rs).1 ≡ (if room 5000 reg rs then 0 else 1))
unfolding pc_readglobalreg pc_setglobalreg room
pc_setglobalreg_lost reg other val rs crowded =
    let update : Option (List (Slot ℤ)) =
      update_slots 5000 (λ a. same_key a reg) (val == 0) (as_i32 val) rs in
    let claim : Option (List (Slot ℤ)) = claim_slots 5000 reg (as_i32 val) rs in
    let free_before : (any_slot 500 (λ a. same_key a reg) rs ≡ false)
        × (any_slot 500 (λ a. same_key a []) rs ≡ false) =
      or_false _ _ crowded in
    elim (Option-cases update) [
      | inr (rs', e) ↦
          rw (set-equals (as_i32 val) reg (val == 0) 1 5000 rs (some rs') claim e refl) (
            update-behind (pos 0) (as_i32 val) reg 500 5000 (val == 0) rs rs' _ free_before.0 e,
            or_code _ _ (inl (update-some (as_i32 val) reg 5000 (val == 0) rs rs' e)),
          )
      | inl e ↦ elim (Option-cases claim) [
        | inr (rs', e1) ↦
            rw (set-equals (as_i32 val) reg (val == 0) 1 5000 rs none (some rs') e e1) (
              claim-behind (pos 0) (as_i32 val) reg 500 5000 rs rs' _ free_before.1 e1,
              or_code _ _ (inr (claim-some (as_i32 val) reg 5000 rs rs' e1)),
            )
        | inl e1 ↦ rw (set-equals (as_i32 val) reg (val == 0) 1 5000 rs none none e e1) (
          refl,
          rw
              (
                update-none (as_i32 val) reg 5000 (val == 0) rs e,
                claim-none (as_i32 val) reg 5000 rs e1,
              )
              refl,
        )
      ]
    ]
