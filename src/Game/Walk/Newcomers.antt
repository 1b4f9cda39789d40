-- ===== src/Game/Walk/Newcomers.antt =====
-- Who is told of a newcomer: the cells of the strip are those that see the new cell and did not see the
-- old one.
use native.Mathlib.Decide.{dec_le}
use yuri.Base.{ℕ, zero, suc, ◌+◌, ◌-◌, ◌≤◌, ◌<◌, ◌≡◌, ◌↔◌, ap, arith, Bool, false}
use yuri.Base.Int.{ℤ, pos, ◌+ℤ◌, ◌-ℤ◌, ◌≤ℤ◌, int_laws}
use yuri.Game.Walk.View.{View, up, right, down, left, viewport_delta}

-- A player at a cell sees 9 cells to the left and right, and 8 up and down.
abbrev pub Sees : ℤ → ℤ → ℤ → ℤ → Type 0
Sees x y px py = (px ≤ℤ x +ℤ pos 9) × (x ≤ℤ px +ℤ pos 9) × (py ≤ℤ y +ℤ pos 8) × (y ≤ℤ py +ℤ pos 8)

-- The cells from (x0, y0) to (x0 + x1 - 1, y0 + y1 - 1).
abbrev pub InStrip : View → ℤ → ℤ → Type 0
InStrip v px py =
    (v.x0 ≤ℤ px) × (px +ℤ pos 1 ≤ℤ v.x0 +ℤ v.x1) × (v.y0 ≤ℤ py) × (py +ℤ pos 1 ≤ℤ v.y0 +ℤ v.y1)

-- So far from the edges that the strip is not changed for them.
pub record Inside (x y xs ys : ℕ) : Type 0 where
  pub west : 19 ≤ x
  pub east : x + 19 < xs
  pub north : 17 ≤ y
  pub south : y + 17 < ys

abbrev nothingnew : View → Bool
nothingnew v = v.nothingnew

abbrev pub Told : View → ℕ → ℕ → ℕ → ℕ → Type 0
Told v x y px py =
    InStrip v (pos px) (pos py)
    ↔ (Sees v.dx v.dy (pos px) (pos py) × ¬ Sees (pos x) (pos y) (pos px) (pos py))

module _ {x y xs ys : ℕ} (inside : Inside x y xs ys) where
  up_inside : up x y xs ys ≡ record {
    x0 = pos (x - 9);
    y0 = pos (y - 9);
    x1 = pos 19;
    y1 = pos 1;
    dx = pos (x);
    dy = pos (y - 1);
    nothingnew = false;
  }
  unfolding ◌-ℤ◌
  up_inside = ground arith

  up-Told : (px py : ℕ) → Told (up x y xs ys) x y px py
  up-Told px py = rw up_inside (
    λ h. (omega int_laws, λ s. omega int_laws),
    λ h. elim (dec_le py (y - 9)) [
      | yes fresh ↦ omega int_laws
      | no seen ↦ absurd (h.1 (omega int_laws))
    ],
  )

  right_inside : right x y xs ys ≡ record {
    x0 = pos (x + 10);
    y0 = pos (y - 8);
    x1 = pos 1;
    y1 = pos 17;
    dx = pos (x + 1);
    dy = pos (y);
    nothingnew = false;
  }
  unfolding ◌-ℤ◌
  right_inside = ground arith

  right-Told : (px py : ℕ) → Told (right x y xs ys) x y px py
  right-Told px py = rw right_inside (
    λ h. (omega int_laws, λ s. omega int_laws),
    λ h. elim (dec_le (x + 10) (px)) [
      | yes fresh ↦ omega int_laws
      | no seen ↦ absurd (h.1 (omega int_laws))
    ],
  )

  down_inside : down x y xs ys ≡ record {
    x0 = pos (x - 9);
    y0 = pos (y + 9);
    x1 = pos 19;
    y1 = pos 1;
    dx = pos (x);
    dy = pos (y + 1);
    nothingnew = false;
  }
  unfolding ◌-ℤ◌
  down_inside = ground arith

  down-Told : (px py : ℕ) → Told (down x y xs ys) x y px py
  down-Told px py = rw down_inside (
    λ h. (omega int_laws, λ s. omega int_laws),
    λ h. elim (dec_le (y + 9) (py)) [
      | yes fresh ↦ omega int_laws
      | no seen ↦ absurd (h.1 (omega int_laws))
    ],
  )

  left_inside : left x y xs ys ≡ record {
    x0 = pos (x - 10);
    y0 = pos (y - 8);
    x1 = pos 1;
    y1 = pos 17;
    dx = pos (x - 1);
    dy = pos (y);
    nothingnew = false;
  }
  unfolding ◌-ℤ◌
  left_inside = ground arith

  left-Told : (px py : ℕ) → Told (left x y xs ys) x y px py
  left-Told px py = rw left_inside (
    λ h. (omega int_laws, λ s. omega int_laws),
    λ h. elim (dec_le px (x - 10)) [
      | yes fresh ↦ omega int_laws
      | no seen ↦ absurd (h.1 (omega int_laws))
    ],
  )

-- Away from the edges of the map, for each of the four sides, the strip is to be told, and a cell is in
-- it if and only if a player there sees the cell in front and does not see the cell of the walker.
pub viewport_delta-Told :
    (side x y xs ys px py : ℕ)
    → side < 4
    → Inside x y xs ys
    → ((viewport_delta (pos side) x y xs ys).nothingnew ≡ false)
      × Told (viewport_delta (pos side) x y xs ys) x y px py
unfolding viewport_delta
viewport_delta-Told zero x y xs ys px py h i = (ap nothingnew (up_inside i), up-Told i px py)
viewport_delta-Told (suc zero) x y xs ys px py h i =
    (ap nothingnew (right_inside i), right-Told i px py)
viewport_delta-Told (suc (suc zero)) x y xs ys px py h i =
    (ap nothingnew (down_inside i), down-Told i px py)
viewport_delta-Told (suc (suc (suc zero))) x y xs ys px py h i =
    (ap nothingnew (left_inside i), left-Told i px py)
viewport_delta-Told (suc (suc (suc (suc n)))) x y xs ys px py h i = absurd (omega arith)
