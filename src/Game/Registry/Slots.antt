-- ===== src/Game/Registry/Slots.antt =====
-- The loops that the registries share, over the first `n` slots of an array of keys and values: the
-- search for a key, the write to a slot that has it, and the claim of the first empty slot.
use yuri.Base.{
  ℕ, zero, suc, ◌≡◌, Bool, true, false, ◌||◌, List, [], ◌∷◌, Option, none, some, if◌then◌else◌, ◌⊎◌,
}
use yuri.Game.Registry.Keys.{same_key}

abbrev pub Key : Type 0
Key = List ℕ

-- `struct GlobalReg`, and `GlobalRegString` with a text for its value.
pub record Slot (V : Type 0) : Type 0 where
  pub str : Key
  pub val : V

module _ {V : Type 0} where
  -- The value of the first slot whose key passes the test, or `d`.
  unfoldable pub read_slots : V → ℕ → (Key → Bool) → List (Slot V) → V
  read_slots d zero hit rs = d
  read_slots d (suc n) hit [] = d
  read_slots d (suc n) hit (r ∷ rs) = if hit r.str then r.val else read_slots d n hit rs

  -- Writes the value to the first slot whose key passes the test, and empties its key if `cleared`.
  unfoldable pub update_slots : ℕ → (Key → Bool) → Bool → V → List (Slot V) → Option (List (Slot V))
  update_slots zero hit cleared v rs = none
  update_slots (suc n) hit cleared v [] = none
  update_slots (suc n) hit cleared v (r ∷ rs) =
      if hit r.str
      then some (record { str = if cleared then [] else r.str; val = v } ∷ rs)
      else elim (update_slots n hit cleared v rs) [ some rs' ↦ some (r ∷ rs') | none ↦ none ]

  -- Puts a key and a value into the first slot whose key is empty.
  unfoldable pub claim_slots : ℕ → Key → V → List (Slot V) → Option (List (Slot V))
  claim_slots zero key v rs = none
  claim_slots (suc n) key v [] = none
  claim_slots (suc n) key v (r ∷ rs) =
      if same_key r.str []
      then some (record { str = key; val = v } ∷ rs)
      else elim (claim_slots n key v rs) [ some rs' ↦ some (r ∷ rs') | none ↦ none ]

  abbrev claimed : ℕ → List (Slot V) → Option (List (Slot V)) → List (Slot V) × ℕ
  claimed full rs (some rs') = (rs', 0)
  claimed full rs none = (rs, full)

  -- A write: to the slot that has the key, else to an empty one, where `stored` becomes the key; else
  -- the return code is `full`.
  unfoldable pub set_slots :
      ℕ → ℕ → (Key → Bool) → Key → Bool → V → List (Slot V) → List (Slot V) × ℕ
  set_slots full n hit stored cleared v rs = elim (update_slots n hit cleared v rs) [
    | some rs' ↦ (rs', 0)
    | none ↦ claimed full rs (claim_slots n stored v rs)
  ]

  -- Whether one of the first `n` slots passes the test.
  unfoldable pub any_slot : ℕ → (Key → Bool) → List (Slot V) → Bool
  any_slot zero hit rs = false
  any_slot (suc n) hit [] = false
  any_slot (suc n) hit (r ∷ rs) = hit r.str || any_slot n hit rs

  -- No key but the empty one stands twice among the first `n` slots.
  abbrev pub Distinct : ℕ → List (Slot V) → Type 0
  Distinct zero rs = Unit
  Distinct (suc n) [] = Unit
  Distinct (suc n) (r ∷ rs) =
      ((same_key r.str [] ≡ true) ⊎ (any_slot n (λ a. same_key a r.str) rs ≡ false)) × Distinct n rs
