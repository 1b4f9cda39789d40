-- ===== src/Game/Drops/Dropped.antt =====
-- Nothing is lost or gained when a monster drops what it has.
use yuri.Base.{
  ℕ, suc, ◌≡◌, refl, sym, ap, ◌∙◌, arith, true, false, not, ◌&&◌, List, [], ◌∷◌, Option, some,
  if◌then◌else◌, ◌==◌, Bool-cases, inl, inr, All,
}
use yuri.Base.Int.{
  ℤ, pos, pos_part, neg_part, ◌+ℤ◌, ◌≤ℤ◌, leb_ℤ, +ℤ_parts, eq_of_parts, int_laws, fits_i32, i32_add,
  i32_add_fits,
}
use yuri.Game.Inventory.Item.{Item}
use yuri.Game.Inventory.Drop.{FloorItem}
use yuri.Game.Drops.Drop.{
  Attacker, mob_addtocurrent, visit_drop, made, mob_dropitem, drop_loop, mobdb_drops,
}
use yuri.Game.Equip.Kept.{held}

-- How many of an item lie in a cell.
unfoldable pub lying : ℕ → List FloorItem → ℤ
lying id [] = pos 0
lying id (fl ∷ cell) = held id fl.contents +ℤ lying id cell

-- How many of an item the slots have that are dropped.
unfoldable pub carried : ℕ → List Item → ℤ
carried id [] = pos 0
carried id (slot ∷ slots) =
    let rest = carried id slots in
    if not (slot.id == 0) && leb_ℤ (pos 1) slot.amount then held id slot +ℤ rest else rest

zero_+ℤ : (a : ℤ) → pos 0 +ℤ a ≡ a
zero_+ℤ a = eq_of_parts _ _ (omega (arith, +ℤ_parts (pos 0) a))

within :
    (a b l : ℤ)
    → pos 0 ≤ℤ a
    → pos 0 ≤ℤ b
    → pos 0 ≤ℤ l
    → b +ℤ (a +ℤ l) ≤ℤ pos 0x7FFF_FFFF
    → fits_i32 (a +ℤ b) ≡ true
within a b l p q r most =
    let s = +ℤ_parts a b in
    let t = +ℤ_parts a l in let u = +ℤ_parts b (a +ℤ l) in ground (arith, s, t, u, p, q, r, most)

-- No floor item has less than nothing of the item.
abbrev pub Stocked : ℕ → List FloorItem → Type 0
Stocked id = All (λ fl. pos 0 ≤ℤ held id fl.contents)

lying-Stocked : (id : ℕ) (cell : List FloorItem) → Stocked id cell → pos 0 ≤ℤ lying id cell
unfolding lying
lying-Stocked id [] up = omega arith
lying-Stocked id (fl ∷ cell) up = omega (int_laws, up.0, lying-Stocked id cell up.1)

held_up : (id : ℕ) (item : Item) → leb_ℤ (pos 1) item.amount ≡ true → pos 0 ≤ℤ held id item
held_up id item some_left = elim (Bool-cases (item.id == id)) [
  | inl e ↦ rw e (ground (arith, some_left))
  | inr n ↦ rw n (omega arith)
]

carried_up : (id : ℕ) (slots : List Item) → pos 0 ≤ℤ carried id slots
unfolding carried
carried_up id [] = omega arith
carried_up id (slot ∷ slots) = elim (Bool-cases (not (slot.id == 0) && leb_ℤ (pos 1) slot.amount)) [
  | inl goes ↦
      rw goes (omega (int_laws, held_up id slot (ground (arith, goes)), carried_up id slots))
  | inr stays ↦ rw stays (carried_up id slots)
]

module _ (id : ℕ) (fl2 : Item) where
  -- What was merged.
  merged : ℕ → ℤ
  merged def = if def == 0 then pos 0 else held id fl2

  -- Once `def` is set the visits change nothing.
  visited-done : (cell : List FloorItem) → visit_drop fl2 1 cell ≡ (1, cell)
  unfolding visit_drop mob_addtocurrent
  visited-done [] = refl
  visited-done (fl ∷ cell) = rw (visited-done cell) refl

  -- The pile of the item stays within an i32 where the whole of it does.
  held-more :
      (fl : FloorItem) (l : ℤ)
      → (fl.contents.id == fl2.id) ≡ true
      → pos 0 ≤ℤ held id fl.contents
      → pos 0 ≤ℤ held id fl2
      → pos 0 ≤ℤ l
      → held id fl2 +ℤ (held id fl.contents +ℤ l) ≤ℤ pos 0x7FFF_FFFF
      → held id (record (fl.contents) { amount = i32_add fl.contents.amount fl2.amount })
        ≡ held id fl.contents +ℤ held id fl2
  held-more fl l same up up2 upl most = elim (Bool-cases (fl2.id == id)) [
    | inl e ↦
        let f : (fl.contents.id == id) ≡ true = ground (arith, same, e) in
        let a : held id fl.contents ≡ fl.contents.amount = rw f refl in
        let b : held id fl2 ≡ fl2.amount = rw e refl in
        rw (f, e)
          (i32_add_fits fl.contents.amount fl2.amount (
            within fl.contents.amount fl2.amount l (rw (sym a) up) (rw (sym b) up2) upl
              (rw (sym a, sym b) most)))
    | inr n ↦
        let f : (fl.contents.id == id) ≡ false = ground (arith, same, n) in
        rw (f, n) (sym (zero_+ℤ (pos 0)))
  ]

  joined : (h h' l : ℤ) → h' ≡ h +ℤ held id fl2 → h' +ℤ l ≡ held id fl2 +ℤ (h +ℤ l)
  joined h h' l e = eq_of_parts _ _ (omega (int_laws, ap pos_part e, ap neg_part e))

  passed : (h l' d l : ℤ) → l' ≡ d +ℤ l → h +ℤ l' ≡ d +ℤ (h +ℤ l)
  passed h l' d l e = eq_of_parts _ _ (omega (int_laws, ap pos_part e, ap neg_part e))

  lying-visit :
      (cell : List FloorItem)
      → Stocked id cell
      → pos 0 ≤ℤ held id fl2
      → held id fl2 +ℤ lying id cell ≤ℤ pos 0x7FFF_FFFF
      → (lying id (visit_drop fl2 0 cell).1 ≡ merged (visit_drop fl2 0 cell).0 +ℤ lying id cell)
        × Stocked id (visit_drop fl2 0 cell).1
  unfolding visit_drop mob_addtocurrent lying merged
  lying-visit [] up up2 most = (sym (zero_+ℤ (pos 0)), tt)
  lying-visit (fl ∷ cell) up up2 most = elim (Bool-cases (fl.contents.id == fl2.id)) [
    | inl same ↦
        let more = held-more fl (lying id cell) same up.0 up2 (lying-Stocked id cell up.1) most in
        rw (same, visited-done cell)
          (
            joined (held id fl.contents) _ (lying id cell) more,
            (omega (int_laws, ap pos_part more, ap neg_part more, up.0, up2), up.1),
          )
    | inr other ↦
        let ih = lying-visit cell up.1 up2 (omega (int_laws, up.0, most)) in
        rw other
          (passed (held id fl.contents) _ (merged (visit_drop fl2 0 cell).0) _ ih.0, (up.0, ih.1))
  ]

shuffled : (c h l : ℤ) → c +ℤ (h +ℤ l) ≡ (h +ℤ c) +ℤ l
shuffled c h l = eq_of_parts _ _ (omega int_laws)

-- What the slots have, and what lies in the cell.
module _ (groups : ℕ → ℕ) (id2sd : ℕ → Option Attacker) (id : ℕ) where
  lying-dropitem :
      (blockid : ℕ) (attacker : Option ℕ) (bl_id : ℕ) (item : Item) (cell : List FloorItem)
      → Stocked id cell
      → pos 0 ≤ℤ held id item
      → held id item +ℤ lying id cell ≤ℤ pos 0x7FFF_FFFF
      → (lying id (mob_dropitem groups id2sd blockid attacker bl_id item cell)
          ≡ held id item +ℤ lying id cell)
        × Stocked id (mob_dropitem groups id2sd blockid attacker bl_id item cell)
  unfolding mob_dropitem lying merged
  lying-dropitem blockid attacker bl_id item cell up up2 most =
      let v = visit_drop (made item) 0 cell in
      let (e, stocked) = lying-visit id (made item) cell up up2 most in
      elim (Bool-cases (v.0 == 0)) [
        | inl new ↦
            let e0 : lying id v.1 ≡ pos 0 +ℤ lying id cell = e ∙ rw new refl in
            rw new (ap (λ l. held id item +ℤ l) (e0 ∙ zero_+ℤ (lying id cell)), (up2, stocked))
        | inr old ↦ rw old (e ∙ rw old refl, stocked)
      ]

  drop_loop_lem :
      (blockid attacker : ℕ) (fresh : ℕ → ℕ) (slots : List Item) (cell : List FloorItem)
      → Stocked id cell
      → carried id slots +ℤ lying id cell ≤ℤ pos 0x7FFF_FFFF
      → (lying id (drop_loop groups id2sd blockid attacker fresh slots cell).1
          ≡ carried id slots +ℤ lying id cell)
        × (carried id (drop_loop groups id2sd blockid attacker fresh slots cell).0 ≡ pos 0)
  unfolding drop_loop carried
  drop_loop_lem blockid attacker fresh [] cell up most = (sym (zero_+ℤ (lying id cell)), refl)
  drop_loop_lem blockid attacker fresh (slot ∷ slots) cell up most =
      elim (Bool-cases (not (slot.id == 0) && leb_ℤ (pos 1) slot.amount)) [
        | inl goes ↦
            let c = mob_dropitem groups id2sd blockid (some attacker) (fresh 0) slot cell in
            let all_of : carried id (slot ∷ slots) ≡ held id slot +ℤ carried id slots =
              rw goes refl in
            let rest = carried_up id slots in
            let (e, stocked) =
              lying-dropitem blockid (some attacker) (fresh 0) slot cell up
                (held_up id slot (ground (arith, goes)))
                (omega (int_laws, most, ap pos_part all_of, ap neg_part all_of, rest)) in
            let ih =
              drop_loop_lem blockid attacker (λ n. fresh (suc n)) slots c stocked
                (omega (
                  int_laws,
                  most,
                  ap pos_part all_of,
                  ap neg_part all_of,
                  ap pos_part e,
                  ap neg_part e,
                )) in
            rw goes (ih.0 ∙ ap (λ l. carried id slots +ℤ l) e ∙ shuffled _ _ _, ih.1)
        | inr stays ↦
            let all_of : carried id (slot ∷ slots) ≡ carried id slots = rw stays refl in
            let ih =
              drop_loop_lem blockid attacker (λ n. fresh (suc n)) slots cell up
                (omega (int_laws, most, ap pos_part all_of, ap neg_part all_of)) in
            rw stays (ih.0, rw stays ih.1)
      ]

-- Nothing is lost or made when a monster drops what it has: of an item, as much more lies in the cell as
-- the slots had of it behind the script, whether it was put to what lies there or laid down anew, and no
-- slot has anything left to drop. Behind the script no floor item has less than nothing of it, and the
-- slots and the cell have less than 2 ^ 31 of it together: a larger sum can wrap around.
pub mobdb_drops_lem :
    (groups : ℕ → ℕ) (id2sd : ℕ → Option Attacker)
    (script : List Item → List FloorItem → List Item × List FloorItem) (blockid attacker : ℕ)
    (fresh : ℕ → ℕ) (slots : List Item) (cell : List FloorItem) (id : ℕ)
    → All (λ fl. pos 0 ≤ℤ held id fl.contents) (script slots cell).1
    → carried id (script slots cell).0 +ℤ lying id (script slots cell).1 ≤ℤ pos 0x7FFF_FFFF
    → (lying id (mobdb_drops groups id2sd script blockid attacker fresh slots cell).1
        ≡ carried id (script slots cell).0 +ℤ lying id (script slots cell).1)
      × (carried id (mobdb_drops groups id2sd script blockid attacker fresh slots cell).0 ≡ pos 0)
unfolding mobdb_drops
mobdb_drops_lem groups id2sd script blockid attacker fresh slots cell id up most =
    drop_loop_lem groups id2sd id blockid attacker fresh (script slots cell).0 (script slots cell).1
      up most
