-- ===== src/Game/Registry/Stored.antt =====
-- What the registries promise: each behaves as a map from keys to values with a default.
use yuri.Base.{
  ℕ, zero, suc, ◌≡◌, ◌∙◌, ap, refl, Bool, true, false, not, ◌&&◌, ◌||◌, List, [], ◌∷◌, Option, none,
  some, if◌then◌else◌, arith, inl, inr, Option-cases, take, take-all, length, ◌<◌, fun_ext,
}
use yuri.Base.Int.{ℤ, pos, negsuc}
use yuri.Game.Registry.Keys.{same_key, same_bytes, same_key-congr}
use yuri.Game.Registry.Slots.{
  Key, Slot, read_slots, update_slots, claim_slots, set_slots, any_slot, Distinct,
}
use yuri.Game.Registry.Laws.{read-update, read-claim}
use yuri.Game.Registry.Kept.{
  update-none, claim-none, update-some, claim-some, update-Distinct, claim-Distinct,
}
use yuri.Game.Registry.Player.{
  is_zero, pc_readacctreg, pc_setacctreg, pc_readnpcintreg, pc_setnpcintreg, pc_readquestreg,
  pc_setquestreg, pc_readglobalregstring, pc_setglobalregstring,
}
use yuri.Game.Registry.Creature.{
  mob_readglobalreg, mob_setglobalreg, npc_readglobalreg, npc_setglobalreg,
}

module _ {V : Type 0} where
  -- Whether one of the first `n` slots has the key or is empty.
  unfoldable pub room : ℕ → Key → List (Slot V) → Bool
  unfolding any_slot same_key
  room n j rs = any_slot n (λ a. same_key a j) rs || any_slot n (λ a. same_key a []) rs

  -- A write by the outcomes of the update and of the claim.
  pub set-equals :
      (v : V) (j : Key) (cleared : Bool) (full n : ℕ) (rs : List (Slot V))
      (u c : Option (List (Slot V)))
      → update_slots n (λ a. same_key a j) cleared v rs ≡ u
      → claim_slots n j v rs ≡ c
      → set_slots full n (λ a. same_key a j) j cleared v rs
        ≡ elim u [ some rs' ↦ (rs', 0) | none ↦ elim c [ some rs' ↦ (rs', 0) | none ↦ (rs, full) ] ]
  unfolding set_slots
  set-equals v j cleared full n rs (some x) c eu ec = rw (set_slots, eu) refl
  set-equals v j cleared full n rs none (some x) eu ec = rw (set_slots, eu, ec) refl
  set-equals v j cleared full n rs none none eu ec = rw (set_slots, eu, ec) refl

  module _ (d v : V) (j k : Key) (j_filled : same_key j [] ≡ false)
      (k_filled : same_key k [] ≡ false) (cleared : Bool) (z : (if cleared then v else d) ≡ d) where
    -- What a write promises of the new array and the return code.
    abbrev Stored : ℕ → ℕ → List (Slot V) → List (Slot V) × ℕ → Type 0
    Stored full n rs w =
        (read_slots d n (λ a. same_key a k) w.0
          ≡ (if room n j rs && same_key j k then v else read_slots d n (λ a. same_key a k) rs))
        × (w.1 ≡ (if room n j rs then 0 else full))
        × Distinct n w.0

    -- A write, where the array has room and where it has none.
    pub read-set :
        (full n : ℕ) (rs : List (Slot V))
        → Distinct n rs
        → Stored full n rs (set_slots full n (λ a. same_key a j) j cleared v rs)
    unfolding room
    read-set full n rs dist =
        elim (Option-cases (update_slots n (λ a. same_key a j) cleared v rs)) [
          | inr (rs', e) ↦
              rw (set-equals v j cleared full n rs (some rs') (claim_slots n j v rs) e refl) (
                ground (
                  arith,
                  update-some v j n cleared rs rs' e,
                  read-update d v j k j_filled k_filled cleared z n rs rs' dist e,
                ),
                ground (arith, update-some v j n cleared rs rs' e),
                update-Distinct v j n cleared rs rs' dist e,
              )
          | inl e ↦
              let absent : any_slot n (λ a. same_key a j) rs ≡ false =
                update-none v j n cleared rs e in
              elim (Option-cases (claim_slots n j v rs)) [
                | inr (rs', e1) ↦ rw (set-equals v j cleared full n rs none (some rs') e e1) (
                  ground (
                    arith,
                    absent,
                    claim-some v j n rs rs' e1,
                    read-claim d v j k j_filled k_filled n rs rs' absent e1,
                  ),
                  ground (arith, absent, claim-some v j n rs rs' e1),
                  claim-Distinct v j n rs rs' dist absent e1,
                )
                | inl e1 ↦ rw (set-equals v j cleared full n rs none none e e1) (
                  ground (arith, absent, claim-none v j n rs e1),
                  ground (arith, absent, claim-none v j n rs e1),
                  dist,
                )
              ]
        ]

zero_cleared : (val : ℤ) → (if is_zero val then val else pos 0) ≡ pos 0
unfolding is_zero
zero_cleared (pos zero) = refl
zero_cleared (pos (suc n)) = ground arith
zero_cleared (negsuc n) = refl

empty_cleared : (val : List ℕ) → (if same_key val [] then val else []) ≡ []
unfolding same_key
empty_cleared [] = refl
empty_cleared (x ∷ xs) = unfold same_bytes in refl

-- The return code of the writers that report nothing.
silent : {A B : Type 0} (b : Bool) (c : ℕ) → A × (c ≡ (if b then 0 else 0)) × B → A × (c ≡ 0) × B
silent true c h = h
silent false c h = h

-- An account registry whose keys are distinct: what is written under a key that is not empty is read
-- back under it, without regard to case, and what is read under other keys stays, if one of the 5000
-- slots has the key or is empty; else nothing that is read changes. The return code is 0 in each case,
-- and the keys stay distinct.
pub pc_readacctreg-pc_setacctreg :
    (reg other : Key) (val : ℤ) (rs : List (Slot ℤ))
    → same_key reg [] ≡ false
    → same_key other [] ≡ false
    → Distinct 5000 rs
    → (pc_readacctreg other (pc_setacctreg reg val rs).0
        ≡ (if room 5000 reg rs && same_key reg other then val else pc_readacctreg other rs))
      × ((pc_setacctreg reg val rs).1 ≡ 0)
      × Distinct 5000 (pc_setacctreg reg val rs).0
unfolding pc_readacctreg pc_setacctreg
pc_readacctreg-pc_setacctreg reg other val rs filled filled' dist =
    silent (room 5000 reg rs) (pc_setacctreg reg val rs).1 (
      read-set (pos 0) val reg other filled filled' (is_zero val) (zero_cleared val) 0 5000 rs dist)

-- An NPC registry of a player whose keys are distinct: what is written under a key that is not empty
-- is read back under it, without regard to case, and what is read under other keys stays, if one of
-- the 100 slots has the key or is empty; else nothing that is read changes. The return code is 0, and the keys
-- stay distinct.
pub pc_readnpcintreg-pc_setnpcintreg :
    (reg other : Key) (val : ℤ) (rs : List (Slot ℤ))
    → same_key reg [] ≡ false
    → same_key other [] ≡ false
    → Distinct 100 rs
    → (pc_readnpcintreg other (pc_setnpcintreg reg val rs).0
        ≡ (if room 100 reg rs && same_key reg other then val else pc_readnpcintreg other rs))
      × ((pc_setnpcintreg reg val rs).1 ≡ 0)
      × Distinct 100 (pc_setnpcintreg reg val rs).0
unfolding pc_readnpcintreg pc_setnpcintreg
pc_readnpcintreg-pc_setnpcintreg reg other val rs filled filled' dist =
    silent (room 100 reg rs) (pc_setnpcintreg reg val rs).1
      (read-set (pos 0) val reg other filled filled' (is_zero val) (zero_cleared val) 0 100 rs dist)

-- A quest registry whose keys are distinct: what is written under a key that is not empty is read
-- back under it, without regard to case, and what is read under other keys stays, if one of the 250
-- slots has the key or is empty; else nothing that is read changes. The return code is 0, and the keys
-- stay distinct.
pub pc_readquestreg-pc_setquestreg :
    (reg other : Key) (val : ℤ) (rs : List (Slot ℤ))
    → same_key reg [] ≡ false
    → same_key other [] ≡ false
    → Distinct 250 rs
    → (pc_readquestreg other (pc_setquestreg reg val rs).0
        ≡ (if room 250 reg rs && same_key reg other then val else pc_readquestreg other rs))
      × ((pc_setquestreg reg val rs).1 ≡ 0)
      × Distinct 250 (pc_setquestreg reg val rs).0
unfolding pc_readquestreg pc_setquestreg
pc_readquestreg-pc_setquestreg reg other val rs filled filled' dist =
    silent (room 250 reg rs) (pc_setquestreg reg val rs).1
      (read-set (pos 0) val reg other filled filled' (is_zero val) (zero_cleared val) 0 250 rs dist)

-- A registry of texts whose keys are distinct: a text written under a key that is not empty is read
-- back under it, without regard to case, and what is read under other keys stays, if one of the 500
-- slots has the key or is empty; else nothing that is read changes. The return code is 1 then
-- and 0 otherwise, and the keys stay distinct.
pub pc_readglobalregstring-pc_setglobalregstring :
    (reg other : Key) (val : List ℕ) (rs : List (Slot (List ℕ)))
    → same_key reg [] ≡ false
    → same_key other [] ≡ false
    → Distinct 500 rs
    → (pc_readglobalregstring other (pc_setglobalregstring reg val rs).0
        ≡ (if room 500 reg rs && same_key reg other then val else pc_readglobalregstring other rs))
      × ((pc_setglobalregstring reg val rs).1 ≡ (if room 500 reg rs then 0 else 1))
      × Distinct 500 (pc_setglobalregstring reg val rs).0
unfolding pc_readglobalregstring pc_setglobalregstring
pc_readglobalregstring-pc_setglobalregstring reg other val rs filled filled' dist =
    read-set [] val reg other filled filled' (same_key val []) (empty_cleared val) 1 500 rs dist

-- A monster's registry whose keys are distinct: what is written under a key of 1 to 63 bytes is read
-- back under it, without regard to case, and what is read under other keys stays, if one of the 50
-- slots has the key or is empty; else nothing that is read changes. The return code is 1 then
-- and 0 otherwise, and the keys stay distinct.
pub mob_readglobalreg-mob_setglobalreg :
    (reg other : Key) (val : ℤ) (rs : List (Slot ℤ))
    → same_key reg [] ≡ false
    → length reg < 64
    → same_key other [] ≡ false
    → Distinct 50 rs
    → (mob_readglobalreg other (mob_setglobalreg reg val rs).0
        ≡ (if room 50 reg rs && same_key reg other then val else mob_readglobalreg other rs))
      × ((mob_setglobalreg reg val rs).1 ≡ (if room 50 reg rs then 0 else 1))
      × Distinct 50 (mob_setglobalreg reg val rs).0
unfolding mob_readglobalreg mob_setglobalreg
mob_readglobalreg-mob_setglobalreg reg other val rs filled fits filled' dist =
    rw (take-all 63 reg (omega (arith, fits)))
      (read-set (pos 0) val reg other filled filled' (is_zero val) (zero_cleared val) 1 50 rs dist)

filled_hit :
    (reg : Key)
    → same_key reg [] ≡ false
    → ◌≡◌ {A = Key → Bool} (λ a. not (same_key a []) && same_key a reg) (λ a. same_key a reg)
filled_hit reg filled = fun_ext λ a. ground (arith, same_key-congr a reg [])

-- The NPC's reader and writer in the words of the others.
npc_read_filled :
    (reg : Key) (rs : List (Slot ℤ))
    → same_key reg [] ≡ false
    → npc_readglobalreg reg rs ≡ read_slots (pos 0) 100 (λ a. same_key a reg) rs
unfolding npc_readglobalreg
npc_read_filled reg rs filled = ap (λ hit. read_slots (pos 0) 100 hit rs) (filled_hit reg filled)

npc_set_filled :
    (reg : Key) (val : ℤ) (rs : List (Slot ℤ))
    → same_key reg [] ≡ false
    → length reg < 64
    → npc_setglobalreg reg val rs ≡ set_slots 1 100 (λ a. same_key a reg) reg (is_zero val) val rs
unfolding npc_setglobalreg
npc_set_filled reg val rs filled fits =
    ap (λ hit. set_slots 1 100 hit (take 63 reg) (is_zero val) val rs) (filled_hit reg filled)
    ∙ ap (λ stored. set_slots 1 100 (λ a. same_key a reg) stored (is_zero val) val rs)
        (take-all 63 reg (omega (arith, fits)))

-- An NPC's registry whose keys are distinct: what is written under a key of 1 to 63 bytes is read
-- back under it, without regard to case, and what is read under other keys stays, if one of the 100
-- slots has the key or is empty; else nothing that is read changes. The return code is 1 then
-- and 0 otherwise, and the keys stay distinct.
pub npc_readglobalreg-npc_setglobalreg :
    (reg other : Key) (val : ℤ) (rs : List (Slot ℤ))
    → same_key reg [] ≡ false
    → length reg < 64
    → same_key other [] ≡ false
    → Distinct 100 rs
    → (npc_readglobalreg other (npc_setglobalreg reg val rs).0
        ≡ (if room 100 reg rs && same_key reg other then val else npc_readglobalreg other rs))
      × ((npc_setglobalreg reg val rs).1 ≡ (if room 100 reg rs then 0 else 1))
      × Distinct 100 (npc_setglobalreg reg val rs).0
npc_readglobalreg-npc_setglobalreg reg other val rs filled fits filled' dist =
    rw
      (
        npc_set_filled reg val rs filled fits,
        npc_read_filled other rs filled',
        npc_read_filled other (set_slots 1 100 (λ a. same_key a reg) reg (is_zero val) val rs).0
            filled',
      )
      (read-set (pos 0) val reg other filled filled' (is_zero val) (zero_cleared val) 1 100 rs dist)
