-- ===== src/Game/Registry/Laws.antt =====
-- A registry whose keys are distinct behaves as a map with a default.
use yuri.Base.{
  ℕ, zero, suc, ◌≡◌, ◌∙◌, refl, Bool, true, false, List, [], ◌∷◌, some, if◌then◌else◌, arith, ◌⊎◌,
  inl, inr, Bool-cases, Option-cases,
}
use yuri.Game.Registry.Keys.{same_key, same_key_refl, same_key-congr, same_key_sym}
use yuri.Game.Registry.Slots.{Key, Slot, read_slots, update_slots, claim_slots, any_slot, Distinct}

-- The test for a key.
abbrev pub is_key : Key → Key → Bool
is_key k a = same_key a k

module _ {V : Type 0} (d v : V) (j k : Key) (j_filled : same_key j [] ≡ false)
    (k_filled : same_key k [] ≡ false) where
  empty_no_key : (a x : Key) → same_key x [] ≡ false → same_key a [] ≡ true → same_key a x ≡ false
  empty_no_key a x filled h = ground (arith, same_key-congr a x [])

  read-none :
      (n : ℕ) (rs : List (Slot V))
      → any_slot n (is_key k) rs ≡ false
      → read_slots d n (is_key k) rs ≡ d
  unfolding any_slot read_slots
  read-none zero rs h = refl
  read-none (suc n) [] h = refl
  read-none (suc n) (r ∷ rs) h = ground (arith, read-none n rs)

  any-congr :
      (n : ℕ) (rs : List (Slot V)) (a b : Key)
      → same_key a b ≡ true
      → any_slot n (is_key a) rs ≡ any_slot n (is_key b) rs
  unfolding any_slot
  any-congr zero rs a b h = refl
  any-congr (suc n) [] a b h = refl
  any-congr (suc n) (r ∷ rs) a b h = ground (
    arith,
    any-congr n rs a b h,
    same_key-congr r.str a b,
    same_key-congr r.str b a,
    same_key-congr a b r.str h,
    same_key_sym a b h,
    same_key_sym r.str a,
    same_key_sym r.str b,
    same_key_sym a r.str,
    same_key_sym b r.str,
  )

  -- A key that is not in the slots behind another.
  none_behind :
      (n : ℕ) (rs : List (Slot V)) (a : Key)
      → (same_key a [] ≡ true) ⊎ (any_slot n (is_key a) rs ≡ false)
      → same_key a j ≡ true
      → same_key j k ≡ true
      → read_slots d n (is_key k) rs ≡ d
  none_behind n rs a dist aj jk =
      let ak : same_key a k ≡ true = same_key-congr a j k aj ∙ jk in
      ground (arith, empty_no_key a j j_filled, any-congr n rs a k ak, read-none n rs)

  -- A slot that is passed over.
  read-skip :
      (r : Slot V) (n : ℕ) (rest rs : List (Slot V))
      → same_key r.str j ≡ false
      → read_slots d n (is_key k) rest ≡ (if same_key j k then v else read_slots d n (is_key k) rs)
      → read_slots d (suc n) (is_key k) (r ∷ rest)
        ≡ (if same_key j k then v else read_slots d (suc n) (is_key k) (r ∷ rs))
  read-skip r n rest rs miss ih =
      unfold read_slots in
      ground (
        arith,
        ih,
        miss,
        same_key_sym j k,
        same_key_sym r.str k,
        same_key-congr r.str k j,
        same_key-congr k j r.str,
      )

  module _ (cleared : Bool) (z : (if cleared then v else d) ≡ d) where
    -- An update at the first slot.
    read-update_here :
        (n : ℕ) (r : Slot V) (rs : List (Slot V))
        → Distinct (suc n) (r ∷ rs)
        → same_key r.str j ≡ true
        → read_slots d
            (suc n)
            (is_key k)
            (record { str = if cleared then [] else r.str; val = v } ∷ rs)
          ≡ (if same_key j k then v else read_slots d (suc n) (is_key k) (r ∷ rs))
    unfolding read_slots
    read-update_here n r rs dist hit = ground (
      arith,
      same_key-congr r.str j k hit,
      empty_no_key [] k k_filled (same_key_refl []),
      none_behind n rs r.str dist.0 hit,
    )

    -- What a key reads after an update.
    pub read-update :
        (n : ℕ) (rs rs' : List (Slot V))
        → Distinct n rs
        → update_slots n (is_key j) cleared v rs ≡ some rs'
        → read_slots d n (is_key k) rs' ≡ (if same_key j k then v else read_slots d n (is_key k) rs)
    unfolding update_slots
    read-update zero rs rs' dist h = cc
    read-update (suc n) [] rs' dist h = cc
    read-update (suc n) (r ∷ rs) rs' dist h = elim (Bool-cases (same_key r.str j)) [
      | inl hit ↦
          let e : rs' ≡ record { str = if cleared then [] else r.str; val = v } ∷ rs =
            ground (arith, h, hit) in
          rw e (read-update_here n r rs dist hit)
      | inr miss ↦ elim (Option-cases (update_slots n (is_key j) cleared v rs)) [
        | inl gone ↦ absurd (ground (arith, h, miss, gone))
        | inr (rest, e1) ↦
            let e : rs' ≡ r ∷ rest = ground (arith, h, miss, e1) in
            rw e (read-skip r n rest rs miss (read-update n rs rest dist.1 e1))
      ]
    ]

  -- What a key reads after a claim.
  pub read-claim :
      (n : ℕ) (rs rs' : List (Slot V))
      → any_slot n (is_key j) rs ≡ false
      → claim_slots n j v rs ≡ some rs'
      → read_slots d n (is_key k) rs' ≡ (if same_key j k then v else read_slots d n (is_key k) rs)
  unfolding claim_slots
  read-claim zero rs rs' none_before h = cc
  read-claim (suc n) [] rs' none_before h = cc
  read-claim (suc n) (r ∷ rs) rs' none_before h = elim (Bool-cases (same_key r.str [])) [
    | inl free ↦
        let e : rs' ≡ record { str = j; val = v } ∷ rs = ground (arith, h, free) in
        rw e (unfold read_slots in ground (arith, empty_no_key r.str k k_filled free))
    | inr taken ↦ elim (Option-cases (claim_slots n j v rs)) [
      | inl gone ↦ absurd (ground (arith, h, taken, gone))
      | inr (rest, e1) ↦
          let e : rs' ≡ r ∷ rest = ground (arith, h, taken, e1) in
          let miss : same_key r.str j ≡ false =
            unfold any_slot in ground (arith, none_before, Bool-cases (same_key r.str j)) in
          let none_rest : any_slot n (is_key j) rs ≡ false =
            unfold any_slot in ground (arith, none_before, miss) in
          rw e (read-skip r n rest rs miss (read-claim n rs rest none_rest e1))
    ]
  ]
