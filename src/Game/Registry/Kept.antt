-- ===== src/Game/Registry/Kept.antt =====
-- A write keeps the keys of a registry distinct, and finds a slot where there is one.
use yuri.Base.{
  ℕ, zero, suc, ◌≡◌, refl, sym, Bool, true, false, List, [], ◌∷◌, none, some, if◌then◌else◌, arith,
  inl, inr, Bool-cases, Option-cases, subst,
}
use yuri.Game.Registry.Keys.{same_key, same_key_refl, same_key_sym}
use yuri.Game.Registry.Slots.{Key, Slot, update_slots, claim_slots, any_slot, Distinct}

module _ {V : Type 0} (v : V) (j : Key) where
  -- An update fails only where no slot has the key.
  pub update-none :
      (n : ℕ) (cleared : Bool) (rs : List (Slot V))
      → update_slots n (λ a. same_key a j) cleared v rs ≡ none
      → any_slot n (λ a. same_key a j) rs ≡ false
  unfolding update_slots any_slot
  update-none zero cleared rs h = refl
  update-none (suc n) cleared [] h = refl
  update-none (suc n) cleared (r ∷ rs) h = elim (Bool-cases (same_key r.str j)) [
    | inl hit ↦ absurd (ground (arith, h, hit))
    | inr miss ↦ elim (Option-cases (update_slots n (λ a. same_key a j) cleared v rs)) [
      | inl gone ↦ ground (arith, miss, update-none n cleared rs gone)
      | inr (rest, e) ↦ absurd (ground (arith, h, miss, e))
    ]
  ]

  -- A claim fails only where no slot is empty.
  pub claim-none :
      (n : ℕ) (rs : List (Slot V))
      → claim_slots n j v rs ≡ none
      → any_slot n (λ a. same_key a []) rs ≡ false
  unfolding claim_slots any_slot
  claim-none zero rs h = refl
  claim-none (suc n) [] h = refl
  claim-none (suc n) (r ∷ rs) h = elim (Bool-cases (same_key r.str [])) [
    | inl free ↦ absurd (ground (arith, h, free))
    | inr taken ↦ elim (Option-cases (claim_slots n j v rs)) [
      | inl gone ↦ ground (arith, taken, claim-none n rs gone)
      | inr (rest, e) ↦ absurd (ground (arith, h, taken, e))
    ]
  ]

  -- An update succeeds only where a slot has the key.
  pub update-some :
      (n : ℕ) (cleared : Bool) (rs rs' : List (Slot V))
      → update_slots n (λ a. same_key a j) cleared v rs ≡ some rs'
      → any_slot n (λ a. same_key a j) rs ≡ true
  unfolding update_slots any_slot
  update-some zero cleared rs rs' h = cc
  update-some (suc n) cleared [] rs' h = cc
  update-some (suc n) cleared (r ∷ rs) rs' h = elim (Bool-cases (same_key r.str j)) [
    | inl hit ↦ ground (arith, hit)
    | inr miss ↦ elim (Option-cases (update_slots n (λ a. same_key a j) cleared v rs)) [
      | inl gone ↦ absurd (ground (arith, h, miss, gone))
      | inr (rest, e) ↦ ground (arith, miss, update-some n cleared rs rest e)
    ]
  ]

  -- A claim succeeds only where a slot is empty.
  pub claim-some :
      (n : ℕ) (rs rs' : List (Slot V))
      → claim_slots n j v rs ≡ some rs'
      → any_slot n (λ a. same_key a []) rs ≡ true
  unfolding claim_slots any_slot
  claim-some zero rs rs' h = cc
  claim-some (suc n) [] rs' h = cc
  claim-some (suc n) (r ∷ rs) rs' h = elim (Bool-cases (same_key r.str [])) [
    | inl free ↦ ground (arith, free)
    | inr taken ↦ elim (Option-cases (claim_slots n j v rs)) [
      | inl gone ↦ absurd (ground (arith, h, taken, gone))
      | inr (rest, e) ↦ ground (arith, taken, claim-some n rs rest e)
    ]
  ]

  -- An update brings in no key.
  any-update :
      (n : ℕ) (cleared : Bool) (rs rs' : List (Slot V)) (x : Key)
      → same_key x [] ≡ false
      → any_slot n (λ a. same_key a x) rs ≡ false
      → update_slots n (λ a. same_key a j) cleared v rs ≡ some rs'
      → any_slot n (λ a. same_key a x) rs' ≡ false
  unfolding update_slots any_slot
  any-update zero cleared rs rs' x filled absent h = cc
  any-update (suc n) cleared [] rs' x filled absent h = cc
  any-update (suc n) cleared (r ∷ rs) rs' x filled absent h = elim (Bool-cases (same_key r.str j)) [
    | inl hit ↦
        let e : rs' ≡ record { str = if cleared then [] else r.str; val = v } ∷ rs =
          ground (arith, h, hit) in
        rw e (ground (arith, same_key_sym [] x, absent))
    | inr miss ↦ elim (Option-cases (update_slots n (λ a. same_key a j) cleared v rs)) [
      | inl gone ↦ absurd (ground (arith, h, miss, gone))
      | inr (rest, e1) ↦
          let e : rs' ≡ r ∷ rest = ground (arith, h, miss, e1) in
          rw e (ground (arith, absent, any-update n cleared rs rest x filled))
    ]
  ]

  -- A claim brings in its key alone.
  any-claim :
      (n : ℕ) (rs rs' : List (Slot V)) (x : Key)
      → same_key j x ≡ false
      → any_slot n (λ a. same_key a x) rs ≡ false
      → claim_slots n j v rs ≡ some rs'
      → any_slot n (λ a. same_key a x) rs' ≡ false
  unfolding claim_slots any_slot
  any-claim zero rs rs' x other absent h = cc
  any-claim (suc n) [] rs' x other absent h = cc
  any-claim (suc n) (r ∷ rs) rs' x other absent h = elim (Bool-cases (same_key r.str [])) [
    | inl free ↦
        let e : rs' ≡ record { str = j; val = v } ∷ rs = ground (arith, h, free) in
        rw e (ground (arith, other, absent))
    | inr taken ↦ elim (Option-cases (claim_slots n j v rs)) [
      | inl gone ↦ absurd (ground (arith, h, taken, gone))
      | inr (rest, e1) ↦
          let e : rs' ≡ r ∷ rest = ground (arith, h, taken, e1) in
          rw e (ground (arith, absent, any-claim n rs rest x other))
    ]
  ]

  -- An update keeps the keys distinct.
  pub update-Distinct :
      (n : ℕ) (cleared : Bool) (rs rs' : List (Slot V))
      → Distinct n rs
      → update_slots n (λ a. same_key a j) cleared v rs ≡ some rs'
      → Distinct n rs'
  unfolding update_slots
  update-Distinct zero cleared rs rs' dist h = tt
  update-Distinct (suc n) cleared [] rs' dist h = absurd (ground (arith, h))
  update-Distinct (suc n) cleared (r ∷ rs) rs' dist h = elim (Bool-cases (same_key r.str j)) [
    | inl hit ↦
        let e : rs' ≡ record { str = if cleared then [] else r.str; val = v } ∷ rs =
          ground (arith, h, hit) in
        subst (Distinct (suc n)) (sym e) (emptied r n cleared rs dist)
    | inr miss ↦ elim (Option-cases (update_slots n (λ a. same_key a j) cleared v rs)) [
      | inl gone ↦ absurd (ground (arith, h, miss, gone))
      | inr (rest, e1) ↦
          let e : rs' ≡ r ∷ rest = ground (arith, h, miss, e1) in
          subst (Distinct (suc n)) (sym e) (
            ground (arith, dist.0, any-update n cleared rs rest r.str, e1),
            update-Distinct n cleared rs rest dist.1 e1,
          )
    ]
  ]
    where
      emptied :
          (r : Slot V) (n : ℕ) (cleared : Bool) (rs : List (Slot V))
          → Distinct (suc n) (r ∷ rs)
          → Distinct (suc n) (record { str = if cleared then [] else r.str; val = v } ∷ rs)
      emptied r n true rs dist = (inl (same_key_refl []), dist.1)
      emptied r n false rs dist = dist

  later :
      (n : ℕ) (r : Slot V) (rs : List (Slot V))
      → any_slot (suc n) (λ a. same_key a j) (r ∷ rs) ≡ false
      → any_slot n (λ a. same_key a j) rs ≡ false
  unfolding any_slot
  later n r rs h = ground (arith, h)

  first :
      (n : ℕ) (r : Slot V) (rs : List (Slot V))
      → any_slot (suc n) (λ a. same_key a j) (r ∷ rs) ≡ false
      → same_key r.str j ≡ false
  unfolding any_slot
  first n r rs h = ground (arith, h)

  -- A claim of a key that is in no slot keeps the keys distinct.
  pub claim-Distinct :
      (n : ℕ) (rs rs' : List (Slot V))
      → Distinct n rs
      → any_slot n (λ a. same_key a j) rs ≡ false
      → claim_slots n j v rs ≡ some rs'
      → Distinct n rs'
  unfolding claim_slots
  claim-Distinct zero rs rs' dist absent h = tt
  claim-Distinct (suc n) [] rs' dist absent h = absurd (ground (arith, h))
  claim-Distinct (suc n) (r ∷ rs) rs' dist absent h = elim (Bool-cases (same_key r.str [])) [
    | inl free ↦
        let e : rs' ≡ record { str = j; val = v } ∷ rs = ground (arith, h, free) in
        subst (Distinct (suc n)) (sym e) (inr (later n r rs absent), dist.1)
    | inr taken ↦ elim (Option-cases (claim_slots n j v rs)) [
      | inl gone ↦ absurd (ground (arith, h, taken, gone))
      | inr (rest, e1) ↦
          let e : rs' ≡ r ∷ rest = ground (arith, h, taken, e1) in
          subst (Distinct (suc n)) (sym e) (
            ground (
              arith,
              dist.0,
              any-claim n rs rest r.str,
              e1,
              first n r rs absent,
              same_key_sym j r.str,
            ),
            claim-Distinct n rs rest dist.1 (later n r rs absent) e1,
          )
    ]
  ]
