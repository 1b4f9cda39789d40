-- ===== src/Game/Inventory/Dropped.antt =====
-- Nothing is lost or gained when an item goes to the floor.
use yuri.Base.{
  ℕ, ◌<◌, ◌≡◌, refl, sym, ap, ◌∙◌, arith, Bool, true, false, ◌||◌, List, some, if◌then◌else◌, ◌==◌,
  ltb, leb, length, All, Bool-cases, inl, inr, ==_refl,
}
use yuri.Base.Int.{
  ℤ, pos, pos_part, neg_part, ◌+ℤ◌, ◌-ℤ◌, leb_ℤ, fits_i32, +ℤ_parts, -ℤ_parts, eq_of_parts,
}
use yuri.Game.Inventory.Item.{Item, Bag, slot_at, put_slot, slot-put}
use yuri.Game.Inventory.Drop.{
  FloorItem, same_pile, same_int, visit_cell, laid, dropped_slot, dropped_item, drop_slot,
  pc_dropitemmap, pile,
}
use yuri.Game.Inventory.Visits.{same_pile_refl, same_pile-amount, added, pile-visit}

zero_+ℤ : (a : ℤ) → pos 0 +ℤ a ≡ a
zero_+ℤ a = eq_of_parts _ _ (omega (arith, +ℤ_parts (pos 0) a))

same_int-eq : (a b : ℤ) → same_int a b ≡ true → a ≡ b
same_int-eq a b h = eq_of_parts _ _ (ground (arith, h))

-- What lies down anew.
laid_amount : Bool → Item → ℕ → ℤ
laid_amount whole inv def = if def == 0 then (dropped_item whole inv).amount else pos 0

-- What is left in the slot, what lies down anew, and what was merged, make up the slot as it was.
module _ (whole : Bool) (inv : Item) (c : ℤ) where
  gone_whole : pos 0 +ℤ (inv.amount +ℤ (pos 0 +ℤ c)) ≡ inv.amount +ℤ c
  gone_whole = rw (zero_+ℤ c, zero_+ℤ (inv.amount +ℤ c)) refl

  gone_merged : pos 0 +ℤ (pos 0 +ℤ (inv.amount +ℤ c)) ≡ inv.amount +ℤ c
  gone_merged = rw (zero_+ℤ (inv.amount +ℤ c), zero_+ℤ (inv.amount +ℤ c)) refl

  one_less : (inv.amount -ℤ pos 1) +ℤ (pos 1 +ℤ c) ≡ inv.amount +ℤ c
  one_less = eq_of_parts _ _ (
      omega (
        arith,
        -ℤ_parts inv.amount (pos 1),
        +ℤ_parts (pos 1) c,
        +ℤ_parts (inv.amount -ℤ pos 1) (pos 1 +ℤ c),
        +ℤ_parts inv.amount c,
      ))

  last_one :
      same_int (inv.amount -ℤ pos 1) (pos 0) ≡ true
      → pos 0 +ℤ (pos 0 +ℤ (pos 1 +ℤ c)) ≡ inv.amount +ℤ c
  last_one h =
      let z : inv.amount -ℤ pos 1 ≡ pos 0 = same_int-eq (inv.amount -ℤ pos 1) (pos 0) h in
      let p : pos_part (inv.amount -ℤ pos 1) ≡ 0 = ap pos_part z in
      let n : neg_part (inv.amount -ℤ pos 1) ≡ 0 = ap neg_part z in
      let e : inv.amount ≡ pos 1 =
        eq_of_parts inv.amount (pos 1) (omega (arith, -ℤ_parts inv.amount (pos 1), p, n)) in
      rw (zero_+ℤ (pos 1 +ℤ c), zero_+ℤ (pos 1 +ℤ c)) (ap (λ a. a +ℤ c) (sym e))

  balance :
      (def : ℕ)
      → (dropped_slot whole inv).amount +ℤ (laid_amount whole inv def +ℤ (added whole inv def +ℤ c))
        ≡ inv.amount +ℤ c
  unfolding laid_amount added dropped_slot dropped_item
  balance def = elim (Bool-cases (def == 0)) [
    | inl z ↦ elim (Bool-cases whole) [
      | inl w ↦ unfold dropped_slot dropped_item in rw (z, w) gone_whole
      | inr w ↦ elim (Bool-cases (same_int (inv.amount -ℤ pos 1) (pos 0))) [
        | inl l ↦ rw (dropped_slot, dropped_item, z, w, l) gone_whole
        | inr l ↦
            rw (dropped_slot, dropped_item, z, w, l)
              (ap (λ d. (inv.amount -ℤ pos 1) +ℤ (pos 1 +ℤ d)) (zero_+ℤ c) ∙ one_less)
      ]
    ]
    | inr z ↦ elim (Bool-cases whole) [
      | inl w ↦ rw (dropped_slot, dropped_item, z, w) gone_merged
      | inr w ↦ elim (Bool-cases (same_int (inv.amount -ℤ pos 1) (pos 0))) [
        | inl l ↦ rw (dropped_slot, dropped_item, z, w, l) (last_one l)
        | inr l ↦
            rw (dropped_slot, dropped_item, z, w, l)
              (ap (◌+ℤ◌ (inv.amount -ℤ pos 1)) (zero_+ℤ (pos 1 +ℤ c)) ∙ one_less)
      ]
    ]
  ]

dropped_item-same_pile : (whole : Bool) (inv : Item) → same_pile (dropped_item whole inv) inv ≡ true
unfolding dropped_item
dropped_item-same_pile whole inv =
    elim (Bool-cases (whole || same_int (inv.amount -ℤ pos 1) (pos 0))) [
      | inl all ↦ rw (dropped_item, all) (same_pile_refl inv)
      | inr one ↦ rw (dropped_item, one) (same_pile-amount inv inv (pos 1) ∙ same_pile_refl inv)
    ]

pile-laid :
    (whole : Bool) (inv : Item) (bl_id def : ℕ) (cell : List FloorItem)
    → pile inv (laid bl_id (dropped_item whole inv) def cell)
      ≡ laid_amount whole inv def +ℤ pile inv cell
unfolding pile laid_amount
pile-laid whole inv bl_id def cell = elim (Bool-cases (def == 0)) [
  | inl z ↦ rw z (rw (dropped_item-same_pile whole inv) refl)
  | inr z ↦ rw z (sym (zero_+ℤ (pile inv cell)))
]

module _ (itemdb_dura : ℕ → ℤ) (bl_id : ℕ) (whole : Bool) (inv : Item) (cell : List FloorItem)
    (ids : All (λ fl. (fl.bl_id == 0) ≡ false) cell)
    (room : All
      (λ fl. fits_i32 (fl.contents.amount +ℤ (if whole then inv.amount else pos 1)) ≡ true)
      cell) where
  -- The cell behind the visits.
  after : ℕ × List FloorItem
  after =
      if same_int inv.dura (itemdb_dura inv.id)
      then visit_cell itemdb_dura whole inv 0 cell
      else (0, cell)

  pile-after : pile inv after.1 ≡ added whole inv after.0 +ℤ pile inv cell
  unfolding after
  pile-after = elim (Bool-cases (same_int inv.dura (itemdb_dura inv.id))) [
    | inl full ↦ rw full (pile-visit itemdb_dura whole inv cell ids room)
    | inr worn ↦ rw worn (unfold added in sym (zero_+ℤ (pile inv cell)))
  ]

  pile-drop_slot :
      (drop_slot itemdb_dura bl_id whole inv cell).0.amount
        +ℤ pile inv (drop_slot itemdb_dura bl_id whole inv cell).1
      ≡ inv.amount +ℤ pile inv cell
  unfolding drop_slot
  pile-drop_slot =
      unfold after in
      (ap (◌+ℤ◌ (dropped_slot whole inv).amount) (
          pile-laid whole inv bl_id after.0 after.1
          ∙ ap (◌+ℤ◌ (laid_amount whole inv after.0)) pile-after)
        ∙ balance whole inv (pile inv cell) after.0)

-- A drop of one or of all of a slot of the array never panics and loses or makes nothing: what the slot
-- holds and what lies in the cell of the same pile is as much as before, whether the item is laid down
-- anew or put to one that lies there; the other slots stay. The items that lie there have an id that is
-- not 0, and the amount of each fits an i32 together with what is dropped: a larger sum wraps around.
pub pile-pc_dropitemmap :
    (itemdb_dura : ℕ → ℤ) (bl_id i : ℕ) (whole : Bool) (b : Bag) (cell : List FloorItem)
    → i < length b.inventory
    → All (λ fl. (fl.bl_id == 0) ≡ false) cell
    → All
        (λ fl.
          fits_i32 (fl.contents.amount +ℤ (if whole then (slot_at i b.inventory).amount else pos 1))
          ≡ true)
        cell
    → (b' : Bag) × (cell' : List FloorItem) × (pc_dropitemmap itemdb_dura bl_id (pos i) whole b cell
        ≡ some (b', cell'))
      × ((slot_at i b'.inventory).amount +ℤ pile (slot_at i b.inventory) cell'
          ≡ (slot_at i b.inventory).amount +ℤ pile (slot_at i b.inventory) cell)
      × ((j : ℕ) → (i == j) ≡ false → slot_at j b'.inventory ≡ slot_at j b.inventory)
unfolding pc_dropitemmap
pile-pc_dropitemmap itemdb_dura bl_id i whole b cell inside ids room =
    let inv = slot_at i b.inventory in
    let r = drop_slot itemdb_dura bl_id whole inv cell in
    let there : leb (length b.inventory) i ≡ false = ground (arith, inside) in
    elim (Bool-cases (ltb b.maxinv i)) [
      | inl beyond ↦ (b, cell, rw (pc_dropitemmap, beyond) refl, refl, λ j h. refl)
      | inr within ↦ elim (Bool-cases (inv.id == 0)) [
        | inl empty ↦ (b, cell, rw (pc_dropitemmap, within, there, empty) refl, refl, λ j h. refl)
        | inr used ↦ elim (Bool-cases (leb_ℤ inv.amount (pos 0))) [
          | inl nothing ↦ (
            b,
            cell,
            rw (pc_dropitemmap, within, there, used) (rw nothing refl),
            refl,
            λ j h. refl,
          )
          | inr amount ↦ (
            record b { inventory = put_slot i r.0 b.inventory },
            r.1,
            rw (pc_dropitemmap, within, there, used) (rw amount refl),
            rw (slot-put i i r.0 b.inventory inside, ==_refl i)
                (pile-drop_slot itemdb_dura bl_id whole inv cell ids room),
            λ j h. slot-put i j r.0 b.inventory inside ∙ rw h refl,
          )
        ]
      ]
    ]
