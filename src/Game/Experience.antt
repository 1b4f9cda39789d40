-- ===== src/Game/Experience.antt =====
-- `pc_givexp` of src/game/pc.rs: experience is a `u32`, the product of an award and its rate an `i64`. The
-- blocks of the player's cell are a list; what the client sees and the scripts of a new level are left
-- out.
use yuri.Base.{
  ℕ, ◌+◌, ◌-◌, ◌*◌, ◌^◌, ◌%◌, ◌<◌, ◌≡◌, refl, sym, zero, suc, true, ap, ap₂, ◌∙◌, arith, Bool,
  false, ◌&&◌, ◌||◌, List, [], ◌∷◌, Option, none, some, if◌then◌else◌, ltb, leb, ◌==◌, u32, min,
  Bool-cases, inl, inr,
}

-- What a block in the cell is: of a player, on the player's tile, and the rank of the player who is found
-- for it.
pub record Block : Type 0 where
  pub is_pc : Bool
  pub same_tile : Bool
  pub gm_level : Option ℕ

abbrev pub counts : Block → Bool
counts b = b.is_pc && (b.same_tile && elim b.gm_level [ none ↦ false | some n ↦ n == 0 ])

-- The players on the tile, at most 32768.
unfoldable pub stack_from : ℕ → List Block → ℕ
stack_from stack [] = stack
stack_from stack (b ∷ blocks) =
    let next = if counts b then stack + 1 else stack in
    let rest = stack_from next blocks in if ltb stack 32768 then rest else stack

pub data Award : Type 0 where
  on_top : Award
  is_afk : Award
  nothing : Award
  gained : (amount : ℕ) → Award

-- `none` where the map is not loaded.
unfoldable pub stack_of : Option (List Block) → ℕ
unfolding stack_from
stack_of none = 0
stack_of (some bs) = stack_from 0 bs

-- The sum, or what is missing to the greatest `u32`; the product is below 0 from 2 ^ 63 on.
unfoldable pub raised : ℕ → ℕ → ℕ × Award
raised had totalxp =
    let difxp = 2 ^ 32 - 1 - had in
    if leb (2 ^ 63) totalxp || ltb totalxp difxp
    then (u32 (had + u32 totalxp), gained (u32 totalxp))
    else (u32 (had + difxp), gained difxp)

-- The new experience, and what the player is told.
unfoldable pub pc_givexp : Option (List Block) → ℕ → ℕ → ℕ → ℕ → ℕ × Award
unfolding stack_of raised
pc_givexp blocks afk had exp xprate =
    if ltb 1 (stack_of blocks)
    then (had, on_top)
    else if afk == 1
    then (had, is_afk)
    else if exp == 0
    then (had, nothing)
    else raised had (exp * xprate % 2 ^ 64)

-- A player on the tile whose rank is 0, so that he is no game master.
abbrev pub in_the_way : Bool → Bool → Option ℕ → ℕ
in_the_way is_pc same_tile none = 0
in_the_way false same_tile (some n) = 0
in_the_way true false (some n) = 0
in_the_way true true (some zero) = 1
in_the_way true true (some (suc n)) = 0

-- How many of them stand there, the one who gets the award included if he has that rank.
abbrev pub players : List Block → ℕ
players [] = 0
players (b ∷ blocks) = in_the_way b.is_pc b.same_tile b.gm_level + players blocks

in_the_way_lem :
    (is_pc same_tile : Bool) (gm_level : Option ℕ)
    → (if is_pc && (same_tile && elim gm_level [ none ↦ false | some n ↦ n == 0 ]) then 1 else 0)
      ≡ in_the_way is_pc same_tile gm_level
in_the_way_lem false same_tile none = refl
in_the_way_lem true false none = refl
in_the_way_lem true true none = refl
in_the_way_lem false same_tile (some n) = refl
in_the_way_lem true false (some n) = refl
in_the_way_lem true true (some zero) = refl
in_the_way_lem true true (some (suc n)) = ground arith

abbrev pub others : Option (List Block) → ℕ
others none = 0
others (some bs) = players bs

stack_from_lem :
    (stack : ℕ) (bs : List Block) → ltb 1 (stack_from stack bs) ≡ ltb 1 (stack + players bs)
unfolding stack_from
stack_from_lem stack [] = ground arith
stack_from_lem stack (b ∷ bs) = elim (Bool-cases (ltb stack 32768)) [
  | inl more ↦ elim (Bool-cases (counts b)) [
    | inl c ↦
        let one : 1 ≡ in_the_way b.is_pc b.same_tile b.gm_level =
          sym (ap (λ (t : Bool). if t then 1 else 0) c)
          ∙ in_the_way_lem b.is_pc b.same_tile b.gm_level in
        rw (stack_from, more, c, ← one) (ground (arith, stack_from_lem (stack + 1) bs))
    | inr c ↦
        let zero_there : 0 ≡ in_the_way b.is_pc b.same_tile b.gm_level =
          sym (ap (λ (t : Bool). if t then 1 else 0) c)
          ∙ in_the_way_lem b.is_pc b.same_tile b.gm_level in
        rw (stack_from, more, c, ← zero_there) (ground (arith, stack_from_lem stack bs))
  ]
  | inr full ↦ rw (stack_from, full) (ground (arith, full))
]

-- What an award is meant to do.
abbrev pub capped : ℕ → ℕ → ℕ
capped had more = min (2 ^ 32 - 1) (had + more)

abbrev pub award : Option (List Block) → ℕ → ℕ → ℕ → ℕ → ℕ × Award
award blocks afk had exp xprate =
    if ltb 1 (others blocks)
    then (had, on_top)
    else if afk == 1
    then (had, is_afk)
    else if exp == 0
    then (had, nothing)
    else (capped had (exp * xprate), gained (capped had (exp * xprate) - had))

same_stack : (blocks : Option (List Block)) → ltb 1 (stack_of blocks) ≡ ltb 1 (others blocks)
unfolding stack_of
same_stack none = refl
same_stack (some bs) = stack_from_lem 0 bs ∙ ground arith

raised_lem :
    (had p : ℕ)
    → had < 2 ^ 32
    → p < 2 ^ 63
    → raised had (p % 2 ^ 64) ≡ (capped had p, gained (capped had p - had))
unfolding raised
raised_lem had p fits small =
    let whole : p % 2 ^ 64 ≡ p = omega (arith, small) in
    let not_negative : leb (2 ^ 63) p ≡ false = ground (arith, small) in
    elim (Bool-cases (ltb p (2 ^ 32 - 1 - had))) [
      | inl less ↦
          rw (whole, not_negative, less)
            (ap₂ (λ a b. (a, gained b)) (ground (arith, less, fits)) (ground (arith, less, fits)))
      | inr more ↦
          rw (whole, not_negative, more)
            (ap₂ (λ a b. (a, gained b)) (ground (arith, more, fits)) (ground (arith, more, fits)))
    ]

-- An award whose product with the rate is below 2 ^ 63 raises the experience by that product, up to the
-- greatest `u32`, and the player is told by how much; nothing changes if the award is 0, or the player
-- afk, or if two or more players of rank 0, who are no game masters, are on the tile. What the player had fits 32 bits.
pub pc_givexp-award :
    (blocks : Option (List Block)) (afk had exp xprate : ℕ)
    → had < 2 ^ 32
    → exp * xprate < 2 ^ 63
    → pc_givexp blocks afk had exp xprate ≡ award blocks afk had exp xprate
unfolding pc_givexp
pc_givexp-award blocks afk had exp xprate fits small =
    rw (pc_givexp, same_stack blocks, raised_lem had (exp * xprate) fits small) refl
