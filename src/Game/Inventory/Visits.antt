-- ===== src/Game/Inventory/Visits.antt =====
-- What the visits of the items in a cell add to a pile.
use yuri.Base.{
  ℕ, ◌≡◌, refl, ap, ◌∙◌, arith, Bool, true, false, List, [], ◌∷◌, if◌then◌else◌, ◌==◌, All,
  Bool-cases, inl, inr, ==_refl,
}
use yuri.Base.Int.{ℤ, pos, ◌+ℤ◌, ltb_ℤ, +ℤ_parts, eq_of_parts, fits_i32, i32_add, i32_add_fits}
use yuri.Config.{same_text_refl}
use yuri.Game.Registry.Keys.{same_key_refl}
use yuri.Game.Inventory.Item.{Item}
use yuri.Game.Inventory.Drop.{FloorItem, same_pile, pc_addtocurrent, visit_cell, share, pile}

pub same_pile_refl : (inv : Item) → same_pile inv inv ≡ true
unfolding same_pile
same_pile_refl inv =
    rw
      (
        ==_refl inv.id,
        ==_refl inv.owner,
        same_key_refl inv.real_name,
        ==_refl inv.custom_icon,
        ==_refl inv.custom_icon_color,
        ==_refl inv.custom_look,
        ==_refl inv.custom_look_color,
        same_text_refl inv.note,
        ==_refl inv.custom,
        ==_refl inv.protected,
      )
      refl

+ℤ_swap : (a d c : ℤ) → a +ℤ (d +ℤ c) ≡ d +ℤ (a +ℤ c)
+ℤ_swap a d c =
    eq_of_parts _ _
      (omega (arith, +ℤ_parts d c, +ℤ_parts a c, +ℤ_parts a (d +ℤ c), +ℤ_parts d (a +ℤ c)))

+ℤ_assoc_swap : (a d c : ℤ) → (a +ℤ d) +ℤ c ≡ d +ℤ (a +ℤ c)
+ℤ_assoc_swap a d c =
    eq_of_parts _ _
      (omega (arith, +ℤ_parts a d, +ℤ_parts (a +ℤ d) c, +ℤ_parts a c, +ℤ_parts d (a +ℤ c)))

-- What a visit adds.
unfoldable pub added : Bool → Item → ℕ → ℤ
added whole inv def = if def == 0 then pos 0 else (if whole then inv.amount else pos 1)

-- The amount is no part of what tells piles apart.
pub same_pile-amount :
    (fl inv : Item) (n : ℤ) → same_pile (record fl { amount = n }) inv ≡ same_pile fl inv
unfolding same_pile
same_pile-amount fl inv n = refl

module _ (itemdb_dura : ℕ → ℤ) (whole : Bool) (inv : Item) where
  abbrev more : ℤ
  more = if whole then inv.amount else pos 1

  -- A visit passes by, or merges.
  data Visit (fl : FloorItem) : Type 0 where
    passed :
        (fl' : FloorItem)
        → pc_addtocurrent itemdb_dura whole inv 0 fl ≡ (0, fl')
        → fl'.contents ≡ fl.contents
        → Visit fl
    merged :
        (fl' : FloorItem)
        → pc_addtocurrent itemdb_dura whole inv 0 fl ≡ (fl.bl_id, fl')
        → fl'.contents ≡ record fl.contents { amount = fl.contents.amount +ℤ more }
        → same_pile fl.contents inv ≡ true
        → Visit fl

  visit_lem : (fl : FloorItem) → fits_i32 (fl.contents.amount +ℤ more) ≡ true → Visit fl
  unfolding pc_addtocurrent
  visit_lem fl fits = elim (Bool-cases (ltb_ℤ fl.contents.dura (itemdb_dura fl.contents.id))) [
    | inl worn ↦ passed fl (rw (pc_addtocurrent, worn) refl) refl
    | inr sound ↦ elim (Bool-cases (same_pile fl.contents inv)) [
      | inl same ↦
          merged
            (record fl {
              looters = [];
              lastamount = fl.contents.amount;
              contents = record fl.contents { amount = i32_add fl.contents.amount more };
            })
            (rw (pc_addtocurrent, sound) (rw same refl))
            (ap (λ n. record fl.contents { amount = n })
              (i32_add_fits fl.contents.amount more fits))
            same
      | inr other ↦
          passed (record fl { looters = [] }) (rw (pc_addtocurrent, sound) (rw other refl)) refl
    ]
  ]

  done :
      (def : ℕ) (cell : List FloorItem)
      → (def == 0) ≡ false
      → visit_cell itemdb_dura whole inv def cell ≡ (def, cell)
  unfolding visit_cell
  done def [] h = refl
  done def (fl ∷ cell) h =
      let e : pc_addtocurrent itemdb_dura whole inv def fl ≡ (def, fl) =
        unfold pc_addtocurrent in rw (pc_addtocurrent, h) refl in
      rw e (rw (done def cell h) refl)

  pub pile-visit :
      (cell : List FloorItem)
      → All (λ fl. (fl.bl_id == 0) ≡ false) cell
      → All (λ fl. fits_i32 (fl.contents.amount +ℤ more) ≡ true) cell
      → pile inv (visit_cell itemdb_dura whole inv 0 cell).1
        ≡ added whole inv (visit_cell itemdb_dura whole inv 0 cell).0 +ℤ pile inv cell
  unfolding visit_cell pile added
  pile-visit [] ids room = unfold ◌+ℤ◌ in refl
  pile-visit (fl ∷ cell) ids room = elim (visit_lem fl room.0) [
    | passed fl' e same ↦
        rw (e, same)
          (ap (◌+ℤ◌ (share inv fl.contents)) (pile-visit cell ids.1 room.1)
            ∙ +ℤ_swap (share inv fl.contents) _ (pile inv cell))
    | merged fl' e grown same ↦
        rw (e, grown)
          (rw (done fl.bl_id cell ids.0) (
            rw (ids.0, same_pile-amount fl.contents inv (fl.contents.amount +ℤ more), same)
              (+ℤ_assoc_swap fl.contents.amount more (pile inv cell))))
  ]
