-- ===== src/Game/Ids/Free.antt =====
-- What the searches for an id find: the first id that is free.
use yuri.Base.{
  ℕ, zero, suc, ◌+◌, ◌≤◌, ◌<◌, ◌≡◌, ◌⊎◌, inl, inr, refl, arith, max, true, false, ◌&&◌, ◌||◌, List,
  [], ◌∷◌, if◌then◌else◌, leb, ltb, ◌==◌, length, Bool-cases,
}
use yuri.Game.Ids.Search.{
  taken, free_from, mob_get_free_id, npc_from, npc_get_new_npcid, mobot_start_num, npc_start_num,
}

-- The ids in the table from `x` on.
abbrev above : ℕ → List ℕ → ℕ
above x [] = 0
above x (id ∷ table) = (if leb x id then 1 else 0) + above x table

above_le : (x : ℕ) (table : List ℕ) → above x table ≤ length table
above_le x [] = omega arith
above_le x (id ∷ table) = ground (arith, above_le x table)

above_mono : (x : ℕ) (table : List ℕ) → above (x + 1) table ≤ above x table
above_mono x [] = omega arith
above_mono x (id ∷ table) = ground (arith, above_mono x table)

above-taken : (x : ℕ) (table : List ℕ) → taken x table ≡ true → above (x + 1) table < above x table
above-taken x [] h = cc
above-taken x (id ∷ table) h = elim (Bool-cases (id == x)) [
  | inl here ↦ ground (arith, here, above_mono x table)
  | inr there ↦ ground (arith, h, there, above-taken x table, above_mono x table)
]

-- All ids from `x` to `y` are in the table.
abbrev pub AllTaken : ℕ → ℕ → List ℕ → Type 0
AllTaken x y table = (k : ℕ) → x ≤ k → k < y → taken k table ≡ true

none_between : (x : ℕ) (table : List ℕ) → AllTaken x x table
none_between x table k lo hi = absurd (omega arith)

one_more :
    (x y : ℕ) (table : List ℕ)
    → taken x table ≡ true
    → AllTaken (x + 1) y table
    → AllTaken x y table
one_more x y table here rest k lo hi = elim (Bool-cases (k == x)) [
  | inl same ↦ let e : k ≡ x = ground (arith, same) in rw e here
  | inr other ↦ rest k (ground (arith, other)) hi
]

-- The first free id from `x` on and below the NPCs' is found, and the high-water mark is above it; or there is
-- none.
abbrev pub Found : ℕ → ℕ → List ℕ → ℕ × ℕ → Type 0
Found x mark table (id, mark') =
    ((x ≤ id)
      × (id < npc_start_num)
      × (taken id table ≡ false)
      × AllTaken x id table
      × (mark' ≡ max mark (id + 1)))
    ⊎ ((id ≡ 0) × AllTaken x npc_start_num table)

-- What is found behind an id in the table is found from it on.
further :
    (x mark : ℕ) (table : List ℕ) (r : ℕ × ℕ)
    → taken x table ≡ true
    → Found (x + 1) (if x == mark then mark + 1 else mark) table r
    → Found x mark table r
further x mark table (id, mark') here (inl (lo, hi, free, all, top)) =
    inl (omega arith, hi, free, one_more x id table here all, ground arith)
further x mark table (id, mark') here (inr (zero_id, all)) =
    inr (zero_id, one_more x npc_start_num table here all)

free_from-Found :
    (rounds : ℕ) (table : List ℕ) (x mark : ℕ)
    → above x table < rounds
    → x ≤ mark
    → mark ≤ npc_start_num
    → Found x mark table (free_from rounds table x mark)
unfolding free_from
free_from-Found zero table x mark enough lo hi = absurd (omega arith)
free_from-Found (suc rounds) table x mark enough lo hi =
    elim (Bool-cases (leb npc_start_num x || x == mark && leb npc_start_num mark)) [
      | inl out ↦ rw out (inr (refl, λ k a b. absurd (ground arith)))
      | inr more ↦ elim (Bool-cases (taken x table)) [
        | inl used ↦
            rw (more, used)
              (further x mark table _ used (
                free_from-Found rounds table (x + 1) (if x == mark then mark + 1 else mark)
                  (omega (arith, above-taken x table used)) (ground (arith, lo))
                  (ground (arith, more))))
        | inr free ↦
            rw (more, free)
              (inl (ground arith, ground arith, free, none_between x table, ground arith))
      ]
    ]

-- `mob_get_free_id` finds the first id of its range, from 1173741823 to below 3221225472, that is not in
-- the table, and raises the high-water mark above it, or leaves the mark if it is above already; it
-- returns 0 only if the whole range is in the table. The mark is in the range, or at its end.
pub mob_get_free_id-Found :
    (table : List ℕ) (mark : ℕ)
    → mobot_start_num ≤ mark
    → mark ≤ npc_start_num
    → Found mobot_start_num mark table (mob_get_free_id table mark)
unfolding mob_get_free_id
mob_get_free_id-Found table mark lo hi =
    free_from-Found (suc (length table)) table mobot_start_num mark
      (omega (arith, above_le mobot_start_num table)) lo hi

-- The same without an end of the range.
abbrev pub FoundNpc : ℕ → ℕ → List ℕ → ℕ × ℕ → Type 0
FoundNpc x mark table (id, mark') =
    (x ≤ id) × (taken id table ≡ false) × AllTaken x id table × (mark' ≡ max mark (id + 1))

further_npc :
    (x mark : ℕ) (table : List ℕ) (r : ℕ × ℕ)
    → taken x table ≡ true
    → FoundNpc (x + 1) (if x == mark then mark + 1 else mark) table r
    → FoundNpc x mark table r
further_npc x mark table (id, mark') here (lo, free, all, top) =
    (omega arith, free, one_more x id table here all, ground arith)

npc_from-FoundNpc :
    (rounds : ℕ) (table : List ℕ) (x mark : ℕ)
    → above x table < rounds
    → x ≤ mark
    → FoundNpc x mark table (npc_from rounds table x mark)
unfolding npc_from
npc_from-FoundNpc zero table x mark enough lo = absurd (omega arith)
npc_from-FoundNpc (suc rounds) table x mark enough lo =
    let running : ltb mark x ≡ false = ground (arith, lo) in
    elim (Bool-cases (taken x table)) [
      | inl used ↦
          rw (running, used)
            (further_npc x mark table _ used (
              npc_from-FoundNpc rounds table (x + 1) (if x == mark then mark + 1 else mark)
                (omega (arith, above-taken x table used)) (ground (arith, lo))))
      | inr free ↦ rw (running, free) (omega arith, free, none_between x table, ground arith)
    ]

-- `npc_get_new_npcid` finds the first id from 3221225472 on that is not in the table, and raises the
-- high-water mark above it, or leaves the mark if it is above already. The mark is in the range.
pub npc_get_new_npcid-FoundNpc :
    (table : List ℕ) (mark : ℕ)
    → npc_start_num ≤ mark
    → FoundNpc npc_start_num mark table (npc_get_new_npcid table mark)
unfolding npc_get_new_npcid
npc_get_new_npcid-FoundNpc table mark lo =
    npc_from-FoundNpc (suc (length table)) table npc_start_num mark
      (omega (arith, above_le npc_start_num table)) lo
