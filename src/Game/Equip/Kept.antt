-- ===== src/Game/Equip/Kept.antt =====
-- What a player has of an item in the inventory and worn is the same after the second phase of putting on.
use yuri.Base.{
  ℕ, zero, suc, ◌<◌, ◌≡◌, refl, ap, ◌∙◌, arith, true, false, not, ◌&&◌, List, [], ◌∷◌, some,
  if◌then◌else◌, leb, ◌==◌, length, Bool-cases, inl, inr, ==_refl,
}
use yuri.Base.Int.{
  pos_part, neg_part, ℤ, pos, ◌+ℤ◌, ◌-ℤ◌, leb_ℤ, +ℤ_parts, -ℤ_parts, eq_of_parts, int_laws,
}
use yuri.Game.Walk.View.{same_int}
use yuri.Game.Inventory.Item.{put-put, Bag, Item, zeroed, slot_at, put_slot, slot-put}
use yuri.Game.Inventory.Delete.{pc_delitem, taken_from, taken_used}
use yuri.Game.Equip.Wear.{Gear, Wearer, worn}
use yuri.Game.Equip.Script.{with_one, put_on, disenchanted, target_slot, equip_at, pc_equipscript}

-- How many of an item one slot holds, and all slots.
abbrev pub held : ℕ → Item → ℤ
held id item = if item.id == id then item.amount else pos 0

unfoldable pub total : ℕ → List Item → ℤ
total id [] = pos 0
total id (item ∷ items) = held id item +ℤ total id items

regroup : (a t' s t y : ℤ) → t' +ℤ s ≡ t +ℤ y → (a +ℤ t') +ℤ s ≡ (a +ℤ t) +ℤ y
regroup a t' s t y h = eq_of_parts _ _ (omega (int_laws, ap pos_part h, ap neg_part h))

-- A write to a slot changes the total by what the slot holds.
total-put :
    (id i : ℕ) (y : Item) (items : List Item)
    → i < length items
    → total id (put_slot i y items) +ℤ held id (slot_at i items) ≡ total id items +ℤ held id y
unfolding total
total-put id i y [] h = absurd (omega (arith, h))
total-put id zero y (x ∷ items) h = eq_of_parts _ _ (omega int_laws)
total-put id (suc i) y (x ∷ items) h =
    regroup (held id x) (total id (put_slot i y items)) (held id (slot_at i items)) (total id items)
      (held id y) (total-put id i y items (omega arith))

one_less : (a : ℤ) → (a -ℤ pos 1) +ℤ pos 1 ≡ a
one_less a = eq_of_parts _ _ (omega (arith, -ℤ_parts a (pos 1), +ℤ_parts (a -ℤ pos 1) (pos 1)))

only_one : (a : ℤ) → leb_ℤ a (pos 0) ≡ false → leb_ℤ a (pos 1) ≡ true → pos 1 ≡ a
only_one a h l = eq_of_parts _ _ (ground (arith, h, l))

held-zeroed : (id : ℕ) → held id zeroed ≡ pos 0
held-zeroed id = ground arith

zero_+ℤ : (a : ℤ) → pos 0 +ℤ a ≡ a
zero_+ℤ a = eq_of_parts _ _ (omega (arith, +ℤ_parts (pos 0) a))

module _ (id : ℕ) (item : Item) (there : leb_ℤ item.amount (pos 0) ≡ false)
    (used : (item.id == 0) ≡ false) where
  -- One goes, one comes.
  one_moves : held id (taken_from (pos 1) item) +ℤ held id (with_one item) ≡ held id item
  unfolding ◌+ℤ◌
  one_moves =
      rw (taken_used (pos 1) item used refl) (elim (Bool-cases (leb_ℤ item.amount (pos 1))) [
        | inl l ↦
            rw (l, held-zeroed id)
              (elim (Bool-cases (item.id == id)) [
                | inl e ↦ rw e (zero_+ℤ (pos 1) ∙ only_one item.amount there l)
                | inr n ↦ rw n refl
              ])
        | inr m ↦ rw m (elim (Bool-cases (item.id == id)) [
          | inl e ↦ rw e (one_less item.amount)
          | inr n ↦ rw n refl
        ])
      ])

-- Two writes whose changes cancel.
four :
    (p' p h l q' q f o : ℤ)
    → p' +ℤ h ≡ p +ℤ l
    → q' +ℤ f ≡ q +ℤ o
    → l +ℤ o ≡ h
    → f ≡ pos 0
    → p' +ℤ q' ≡ p +ℤ q
four p' p h l q' q f o e1 e2 e3 e4 = eq_of_parts _ _ (
    omega (
      int_laws,
      ap pos_part e1,
      ap neg_part e1,
      ap pos_part e2,
      ap neg_part e2,
      ap pos_part e3,
      ap neg_part e3,
      ap pos_part e4,
      ap neg_part e4,
    ))

-- The enchantment's end leaves what the player has as it is.
disenchanted-bag : (slot : ℕ) (w : Wearer) → (disenchanted slot w).bag ≡ w.bag
disenchanted-bag slot w = elim (Bool-cases (slot == 0 && w.enchanted)) [
  | inl e ↦ rw e refl
  | inr n ↦ rw n refl
]

module _ (on_equip : Wearer → Wearer) (keeps : (v : Wearer) → (on_equip v).bag ≡ v.bag) (w : Wearer)
    (slot : ℕ) (inside : w.invslot < w.bag.maxinv) (there : slot < length w.bag.equip) where
  -- One item less, and the whole of it in the slot.
  abbrev copied : Bag
  copied = record (w.bag) {
    inventory =
        put_slot w.invslot (taken_from (pos 1) (slot_at w.invslot w.bag.inventory)) w.bag.inventory;
    equip = put_slot slot (slot_at w.invslot w.bag.inventory) w.bag.equip;
  }

  delitem-copied :
      pc_delitem
        (pos w.invslot)
        (pos 1)
        (record (w.bag) { equip = put_slot slot (slot_at w.invslot w.bag.inventory) w.bag.equip })
      ≡ copied
  unfolding pc_delitem
  delitem-copied =
      let short : leb w.bag.maxinv w.invslot ≡ false = ground (arith, inside) in rw short refl

  -- The amount of the worn item is set.
  abbrev set_one : Bag → Bag
  set_one b = record b { equip = put_slot slot (with_one (slot_at slot b.equip)) b.equip }

  put_on-bag : (put_on on_equip slot w).bag ≡ record (w.bag) {
    inventory =
        put_slot w.invslot (taken_from (pos 1) (slot_at w.invslot w.bag.inventory)) w.bag.inventory;
    equip = put_slot slot (with_one (slot_at w.invslot w.bag.inventory)) w.bag.equip;
  }
  unfolding put_on
  put_on-bag =
      let item = slot_at w.invslot w.bag.inventory in
      let read : slot_at slot (put_slot slot item w.bag.equip) ≡ item =
        slot-put slot slot item w.bag.equip there ∙ rw (==_refl slot) refl in
      ap set_one (disenchanted-bag slot _ ∙ keeps _ ∙ delitem-copied)
      ∙ ap (λ (e : List Item). record copied { equip = e })
          (ap (λ (x : Item). put_slot slot (with_one x) copied.equip) read
            ∙ put-put slot item (with_one item) w.bag.equip)

  module _ (id : ℕ) (fits : w.invslot < length w.bag.inventory)
      (used : ((slot_at w.invslot w.bag.inventory).id == 0) ≡ false)
      (some_left : leb_ℤ (slot_at w.invslot w.bag.inventory).amount (pos 0) ≡ false)
      (free : held id (slot_at slot w.bag.equip) ≡ pos 0) where
    total-put_on :
        total id (put_on on_equip slot w).bag.inventory
          +ℤ total id (put_on on_equip slot w).bag.equip
        ≡ total id w.bag.inventory +ℤ total id w.bag.equip
    total-put_on =
        let item = slot_at w.invslot w.bag.inventory in
        let left = taken_from (pos 1) item in
        let p : total id (put_slot w.invslot left w.bag.inventory) +ℤ held id item
            ≡ total id w.bag.inventory +ℤ held id left =
          total-put id w.invslot left w.bag.inventory fits in
        let q : total id (put_slot slot (with_one item) w.bag.equip)
              +ℤ held id (slot_at slot w.bag.equip)
            ≡ total id w.bag.equip +ℤ held id (with_one item) =
          total-put id slot (with_one item) w.bag.equip there in
        let m : held id left +ℤ held id (with_one item) ≡ held id item =
          one_moves id item some_left used in
        rw put_on-bag (
          four _ _ (held id item) (held id left) _ _ (held id (slot_at slot w.bag.equip))
            (held id (with_one item)) p q m free)

-- An item is put on without loss or gain: where the player's state allows it and the slot that is chosen
-- is free, the second phase never panics, the slot holds the item afterwards, and of every item the
-- inventory and the worn slots together hold as much as before. The slot of the inventory holds some of
-- an item and lies among the first `maxinv` and in the array, as does the chosen one in its own; and the
-- hook of the item leaves what the player has as it is.
pub total-pc_equipscript :
    (db : Gear) (on_unequip on_equip : Wearer → Wearer) (w : Wearer) (slot id : ℕ)
    → ((v : Wearer) → (on_equip v).bag ≡ v.bag)
    → target_slot w (db.kind w.equipid -ℤ pos 3) ≡ pos slot
    → (not (same_int w.state (pos 0)) && same_int w.gm_level (pos 0)) ≡ false
    → (worn slot w == 0) ≡ true
    → slot < length w.bag.equip
    → w.invslot < w.bag.maxinv
    → w.invslot < length w.bag.inventory
    → ((slot_at w.invslot w.bag.inventory).id == 0) ≡ false
    → leb_ℤ (slot_at w.invslot w.bag.inventory).amount (pos 0) ≡ false
    → (id == 0) ≡ false
    → (w' : Wearer) × (pc_equipscript db on_unequip on_equip w ≡ some w')
      × ((slot_at slot w'.bag.equip).id ≡ (slot_at w.invslot w.bag.inventory).id)
      × (total id w'.bag.inventory +ℤ total id w'.bag.equip
          ≡ total id w.bag.inventory +ℤ total id w.bag.equip)
unfolding pc_equipscript equip_at
total-pc_equipscript db on_unequip on_equip w slot id keeps goal allowed free slots inside fits used
      some_left asked =
    let a : leb (length w.bag.equip) slot ≡ false = ground (arith, slots) in
    let b : leb (length w.bag.inventory) w.invslot ≡ false = ground (arith, fits) in
    let item = slot_at w.invslot w.bag.inventory in
    let put_there : slot_at slot (put_slot slot (with_one item) w.bag.equip) ≡ with_one item =
      slot-put slot slot (with_one item) w.bag.equip slots ∙ rw (==_refl slot) refl in
    let none_held : held id (slot_at slot w.bag.equip) ≡ pos 0 = ground (arith, free, asked) in
    (
      put_on on_equip slot w,
      rw (pc_equipscript, goal, allowed, a, free, b) refl,
      ap (λ (b : Bag). (slot_at slot b.equip).id) (put_on-bag on_equip keeps w slot inside slots)
          ∙ ap (λ (x : Item). x.id) put_there,
      total-put_on on_equip keeps w slot inside slots id fits used some_left none_held,
    )
