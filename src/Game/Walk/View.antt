-- ===== src/Game/Walk/View.antt =====
-- The strip of cells that comes into view by a step, `viewport_delta` of src/game/mob.rs, which `npc_move`
-- of src/game/npc.rs repeats. Coordinates are C ints that come from u16.
use yuri.Base.{ℕ, ◌+◌, ◌-◌, Bool, false, ◌&&◌, if◌then◌else◌, ltb, leb, ◌==◌}
use yuri.Base.Int.{ℤ, pos, negsuc, ◌+ℤ◌, ◌-ℤ◌, ltb_ℤ, leb_ℤ}

-- `x1` and `y1` are the strip's size, `dx` and `dy` the cell in front.
pub record View : Type 0 where
  pub x0 : ℤ
  pub y0 : ℤ
  pub x1 : ℤ
  pub y1 : ℤ
  pub dx : ℤ
  pub dy : ℤ
  pub nothingnew : Bool

-- `==` of C ints.
abbrev pub same_int : ℤ → ℤ → Bool
same_int a b = leb_ℤ a b && leb_ℤ b a

-- No step.
abbrev pub standing : ℕ → ℕ → View
standing x y = record {
  x0 = pos x;
  y0 = pos y;
  x1 = pos 0;
  y1 = pos 0;
  dx = pos x;
  dy = pos y;
  nothingnew = false;
}

-- The long side of the strip, for a view of so many cells to each side: where it starts, `back - half` or
-- 0, and its size, which changes at the edges of the map.
abbrev pub span_start : ℕ → ℕ → ℕ
span_start half back = if ltb (back - half) half then 0 else back - half

abbrev pub span_size : ℕ → ℕ → ℕ → ℤ
span_size half back limit =
    let start = back - half in
    let size = half + half + 1 in
    let kept =
      if leb limit (start + size + half)
      then pos size +ℤ (pos half -ℤ (pos (start + size + half) -ℤ pos limit))
      else pos size in
    if ltb start half then kept +ℤ pos start else kept

abbrev pub up : ℕ → ℕ → ℕ → ℕ → View
up x y xs ys =
    let far = pos y -ℤ pos 9 in
    if ltb 0 y
    then record {
      x0 = pos (span_start 9 x);
      y0 = if same_int far (pos 7) then pos 0 else far;
      x1 = span_size 9 x xs;
      y1 = if same_int far (pos 7) then pos 8 else pos 1;
      dx = pos x;
      dy = pos (y - 1);
      nothingnew = ltb_ℤ far (pos 7);
    }
    else standing x y

abbrev pub right : ℕ → ℕ → ℕ → ℕ → View
right x y xs ys =
    if ltb x xs
    then record {
      x0 = pos (x + 10);
      y0 = pos (span_start 8 y);
      x1 = if same_int (pos (x + 10)) (pos xs -ℤ pos 9) then pos 10 else pos 1;
      y1 = span_size 8 y ys;
      dx = pos (x + 1);
      dy = pos y;
      nothingnew = ltb_ℤ (pos xs -ℤ pos 9) (pos (x + 10));
    }
    else standing x y

abbrev pub down : ℕ → ℕ → ℕ → ℕ → View
down x y xs ys =
    if ltb y ys
    then record {
      x0 = pos (span_start 9 x);
      y0 = pos (y + 9);
      x1 = span_size 9 x xs;
      y1 = if y + 9 + 8 == ys then pos 9 else pos 1;
      dx = pos x;
      dy = pos (y + 1);
      nothingnew = ltb ys (y + 9 + 8);
    }
    else standing x y

abbrev pub left : ℕ → ℕ → ℕ → ℕ → View
left x y xs ys =
    let far = pos x -ℤ pos 10 in
    if ltb 0 x
    then record {
      x0 = if same_int far (pos 8) then pos 0 else far;
      y0 = pos (span_start 8 y);
      x1 = if same_int far (pos 8) then pos 9 else pos 1;
      y1 = span_size 8 y ys;
      dx = pos (x - 1);
      dy = pos y;
      nothingnew = ltb_ℤ far (pos 8);
    }
    else standing x y

-- A side beyond these four is none.
unfoldable pub viewport_delta : ℤ → ℕ → ℕ → ℕ → ℕ → View
viewport_delta (negsuc n) x y xs ys = standing x y
viewport_delta (pos side) x y xs ys =
    if side == 0
    then up x y xs ys
    else if side == 1
    then right x y xs ys
    else if side == 2
    then down x y xs ys
    else if side == 3
    then left x y xs ys
    else standing x y
