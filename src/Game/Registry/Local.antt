-- ===== src/Game/Registry/Local.antt =====
-- The local variables of a player in src/game/pc.rs: arrays that grow, with a `c_int` for a
-- key, which is only compared and stands here as its 32-bit pattern.
-- `realloc` is taken to succeed.
use yuri.Base.{
  ℕ, ◌+◌, ◌≡◌, refl, List, [], ◌∷◌, Option, none, some, if◌then◌else◌, leb, ltb, ◌&&◌, ◌==◌, length,
  arith,
}
use yuri.Base.Int.{ℤ, pos}

-- `struct ScriptReg` and `ScriptRegStr`.
pub record Reg (V : Type 0) : Type 0 where
  pub index : ℕ
  pub «data» : V

module _ {V : Type 0} where
  -- The search that the readers share.
  unfoldable pub find_reg : ℕ → List (Reg V) → Option V
  find_reg reg [] = none
  find_reg reg (r ∷ rs) = if r.index == reg then some r.«data» else find_reg reg rs

  -- The write that the writers share: to the slot with the index, else to a new one at the end.
  unfoldable pub put_reg : ℕ → V → List (Reg V) → List (Reg V)
  put_reg reg val [] = record { index = reg; «data» = val } ∷ []
  put_reg reg val (r ∷ rs) =
      if r.index == reg
      then record { index = r.index; «data» = val } ∷ rs
      else r ∷ put_reg reg val rs

  -- A variable reads as it was written, and the others read as before.
  pub find-put :
      (reg other : ℕ) (val : V) (rs : List (Reg V))
      → find_reg other (put_reg reg val rs) ≡ (if reg == other then some val else find_reg other rs)
  unfolding find_reg put_reg
  find-put reg other val [] = refl
  find-put reg other val (r ∷ rs) = ground (arith, find-put reg other val rs)

unfoldable pub pc_readreg : ℕ → List (Reg ℤ) → ℤ
unfolding find_reg
pc_readreg reg rs = elim (find_reg reg rs) [ some v ↦ v | none ↦ pos 0 ]

unfoldable pub pc_setreg : ℕ → ℤ → List (Reg ℤ) → List (Reg ℤ) × ℕ
unfolding put_reg
pc_setreg reg val rs = (put_reg reg val rs, 0)

-- `none` is the null pointer.
unfoldable pub pc_readregstr : ℕ → List (Reg (List ℕ)) → Option (List ℕ)
unfolding find_reg
pc_readregstr reg rs = find_reg reg rs

unfoldable pub pc_setregstr : ℕ → List ℕ → List (Reg (List ℕ)) → List (Reg (List ℕ)) × ℕ
unfolding put_reg
pc_setregstr reg str rs = if leb 256 (length str + 1) then (rs, 0) else (put_reg reg str rs, 0)

-- A local number reads as it was written last, and the writes to others do not change it.
pub pc_readreg-pc_setreg :
    (reg other : ℕ) (val : ℤ) (rs : List (Reg ℤ))
    → pc_readreg other (pc_setreg reg val rs).0
      ≡ (if reg == other then val else pc_readreg other rs)
pc_readreg-pc_setreg reg other val rs =
    unfold pc_readreg in unfold pc_setreg in ground (arith, find-put reg other val rs)

-- A local text reads as it was written last if that text had fewer than 255 bytes; a longer one is not
-- stored, so that the variable keeps what it had; and writes to others do not change it.
pub pc_readregstr-pc_setregstr :
    (reg other : ℕ) (str : List ℕ) (rs : List (Reg (List ℕ)))
    → pc_readregstr other (pc_setregstr reg str rs).0
      ≡ (if reg == other && ltb (length str) 255 then some str else pc_readregstr other rs)
pc_readregstr-pc_setregstr reg other str rs =
    unfold pc_readregstr in unfold pc_setregstr in ground (arith, find-put reg other str rs)
