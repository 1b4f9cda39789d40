-- ===== src/Game/Inventory/Blocked.antt =====
-- What `rust_pc_additem` does with an item of another owner, or another make, where the cap is reached.
use yuri.Base.{
  ℕ, ◌<◌, ◌≡◌, ◌∙◌, ap, ap₂, refl, arith, Bool, true, false, ◌&&◌, List, [], ◌∷◌, none, some,
  if◌then◌else◌, ◌==◌, ==_refl, length, All,
}
use yuri.Base.Int.{ℤ, pos, negsuc, ◌+ℤ◌, ◌-ℤ◌, ltb_ℤ, leb_ℤ, +ℤ_parts, -ℤ_parts, eq_of_parts}
use yuri.Game.Registry.Keys.{same_key_refl}
use yuri.Game.Inventory.Item.{
  Item, Bag, ItemDb, slot_at, put_slot, slot-put, same_make, first_slot, first_slot_lem, put-put,
}
use yuri.Game.Inventory.Space.{
  owned_like, stackable, pc_isinvenspace, owned_all, differs, pc_isinvenitemspace, capped_space,
}
use yuri.Game.Inventory.Searches.{
  sum_slots-none, worn_like-none, first_slot-none, first_slot-put, first_slot-and_true,
  sum_slots-put,
}
use yuri.Game.Inventory.Add.{add_once, pc_additem, is_nonzero, take_over}
use yuri.Game.Inventory.Stall.{pc_additem_stalls}

plus_zero : (a : ℤ) → a +ℤ pos 0 ≡ a
plus_zero a = eq_of_parts _ _ (omega (arith, +ℤ_parts a (pos 0)))

minus_zero : (a : ℤ) → a -ℤ pos 0 ≡ a
minus_zero a = eq_of_parts _ _ (omega (arith, -ℤ_parts a (pos 0)))

minus_self : (a : ℤ) → a -ℤ a ≡ pos 0
minus_self a = eq_of_parts _ _ (omega (arith, -ℤ_parts a a))

same_note :
    (noted : Bool) (u v : List ℕ)
    → (if noted then u else (if noted then u else v)) ≡ (if noted then u else v)
same_note true u v = refl
same_note false u v = refl

settled : (a d : Bool) (s : ℤ) → (if a && false then s else if d then pos 0 else pos 0) ≡ pos 0
settled true true s = refl
settled true false s = refl
settled false true s = refl
settled false false s = refl

not_stackable : (a c m : Bool) → (a && m) ≡ false → (a && c && m && true) ≡ false
not_stackable true true m h = ground (arith, h)
not_stackable true false m h = refl
not_stackable false c m h = refl

module _ (db : ItemDb) (noted : Bool) (fl : Item) (cap : ltb_ℤ (pos 0) (db.maxamount fl.id) ≡ true)
    (stack : ltb_ℤ (pos 0) (db.stackamount fl.id) ≡ true)
    (more : ltb_ℤ (pos 0) fl.amount ≡ true) where
  -- At the cap no slot has room.
  no_room :
      (num : ℕ) (b : Bag)
      → owned_all fl b ≡ db.maxamount fl.id
      → pc_isinvenitemspace db num fl b ≡ pos 0
  unfolding pc_isinvenitemspace
  no_room num b full =
      let none_left : db.maxamount fl.id -ℤ owned_all fl b ≡ pos 0 =
        ap (◌-ℤ◌ (db.maxamount fl.id)) full ∙ minus_self (db.maxamount fl.id) in
      let tight : leb_ℤ (db.stackamount fl.id) (pos 0) ≡ false = ground (arith, stack) in
      let inv = slot_at num b.inventory in
      ap
        (λ (left : ℤ).
          if ltb_ℤ (pos 0) (db.maxamount fl.id)
          then (if inv.id == 0 && leb_ℤ (db.stackamount fl.id) left
              then db.stackamount fl.id
              else if differs fl inv
              then pos 0
              else left)
          else (if inv.id == 0
              then db.stackamount fl.id
              else if differs fl inv
              then pos 0
              else db.stackamount fl.id -ℤ inv.amount))
        none_left
      ∙ rw (cap, tight) (settled (inv.id == 0) (differs fl inv) (db.stackamount fl.id))

  -- The slot takes over the item, and none of it.
  once :
      (num : ℕ) (b : Bag)
      → owned_all fl b ≡ db.maxamount fl.id
      → add_once db noted num fl b ≡ (
        record b {
          inventory =
              put_slot num (take_over noted (pos 0) fl (slot_at num b.inventory)) b.inventory;
        },
        fl,
      )
  unfolding add_once
  once num b full =
      ap
        (λ (i : ℤ).
          let n = if ltb_ℤ i fl.amount then i else fl.amount in
          (
            record b {
              inventory = put_slot num (take_over noted n fl (slot_at num b.inventory)) b.inventory;
            },
            record fl { amount = if ltb_ℤ i fl.amount then fl.amount -ℤ i else pos 0 },
          ))
        (no_room num b full)
      ∙ rw (more, minus_zero fl.amount) refl

  module _ (b : Bag) (num : ℕ) (full : owned_all fl b ≡ db.maxamount fl.id)
      (apart : All (λ x. (x.id == fl.id && same_make x fl) ≡ false) b.inventory)
      (off : All (λ e. (e.id == fl.id) ≡ false) b.equip) (real : (fl.id == 0) ≡ false)
      (free : first_slot b.maxinv (λ inv. inv.id == 0) b.inventory ≡ some num)
      (inside : num < length b.inventory) (clear : (slot_at num b.inventory).amount ≡ pos 0) where
    -- What is in the slot after a round.
    abbrev put_in : Item
    put_in = take_over noted (pos 0) fl (slot_at num b.inventory)

    abbrev next : Bag
    next = record b { inventory = put_slot num put_in b.inventory }

    put_in-amount : put_in.amount ≡ pos 0
    unfolding take_over
    put_in-amount = plus_zero (slot_at num b.inventory).amount ∙ clear

    free_id : ((slot_at num b.inventory).id == 0) ≡ true
    free_id = (first_slot_lem b.maxinv (λ inv. inv.id == 0) b.inventory num free).1

    not_it : ((slot_at num b.inventory).id == fl.id) ≡ false
    not_it = ground (arith, real, free_id)

    owned_like-none : owned_like fl b ≡ pos 0
    unfolding owned_like
    owned_like-none =
        rw
          (
            sum_slots-none b.maxinv (λ inv. inv.id == fl.id && same_make inv fl) b.inventory apart,
            worn_like-none 14 fl b.equip b.inventory off,
          )
          (plus_zero (pos 0))

    owned_like-next : owned_like fl next ≡ pos 0
    unfolding owned_like
    owned_like-next =
        rw
          (
            sum_slots-put b.maxinv num (λ inv. inv.id == fl.id && same_make inv fl) put_in
                b.inventory put_in-amount (rw not_it refl),
            sum_slots-none b.maxinv (λ inv. inv.id == fl.id && same_make inv fl) b.inventory apart,
            worn_like-none 14 fl b.equip (put_slot num put_in b.inventory) off,
          )
          (plus_zero (pos 0))

    owned_all-next : owned_all fl next ≡ owned_all fl b
    unfolding owned_all
    owned_all-next =
        rw
          (sum_slots-put b.maxinv num (λ inv. inv.id == fl.id) put_in b.inventory put_in-amount
            not_it)
          refl

    lt : num < b.maxinv
    lt = (first_slot_lem b.maxinv (λ inv. inv.id == 0) b.inventory num free).0

    none_stack :
        (xs : List Item)
        → All (λ x. (x.id == fl.id && same_make x fl) ≡ false) xs
        → All (λ x. (stackable db fl x && true) ≡ false) xs
    unfolding stackable
    none_stack [] h = tt
    none_stack (x ∷ xs) h = (
      not_stackable (x.id == fl.id) (ltb_ℤ x.amount (db.stackamount fl.id)) (same_make x fl) h.0,
      none_stack xs h.1,
    )

    hit : (stackable db fl put_in && true) ≡ true
    unfolding stackable take_over same_make
    hit =
        rw
          (
            put_in-amount,
            stack,
            ==_refl fl.id,
            ==_refl fl.owner,
            same_key_refl fl.real_name,
            ==_refl fl.custom_look,
            ==_refl fl.custom_look_color,
            ==_refl fl.custom_icon,
            ==_refl fl.custom_icon_color,
          )
          refl

    space : pc_isinvenspace db fl b ≡ num
    space =
        capped_space db fl b true cap
          (ap (λ (o : ℤ). ltb_ℤ o (db.maxamount fl.id)) owned_like-none ∙ cap)
        ∙ rw
            (
              first_slot-none b.maxinv (λ inv. stackable db fl inv && true) b.inventory
                  (none_stack b.inventory apart),
              first_slot-and_true b.maxinv (λ inv. inv.id == 0) b.inventory,
              free,
            )
            refl

    space-next : pc_isinvenspace db fl next ≡ num
    space-next =
        capped_space db fl next true cap
          (ap (λ (o : ℤ). ltb_ℤ o (db.maxamount fl.id)) owned_like-next ∙ cap)
        ∙ rw
            (first_slot-put b.maxinv num (λ inv. stackable db fl inv && true) put_in b.inventory
              (none_stack b.inventory apart) hit lt inside)
            refl

    -- The slot takes over the item again, and nothing changes.
    put_again : take_over noted (pos 0) fl put_in ≡ put_in
    unfolding take_over
    put_again =
        ap₂ (λ (a : ℤ) (n : List ℕ). record fl { amount = a; note = n })
          (plus_zero ((slot_at num b.inventory).amount +ℤ pos 0))
          (same_note noted fl.note (slot_at num b.inventory).note)

    once-next : add_once db noted num fl next ≡ (next, fl)
    once-next =
        let read : slot_at num (put_slot num put_in b.inventory) ≡ put_in =
          slot-put num num put_in b.inventory inside ∙ rw (==_refl num) refl in
        once num next (owned_all-next ∙ full)
        ∙ ap (λ (l : List Item). (record b { inventory = l }, fl))
            (ap (λ (x : Item). put_slot num (take_over noted (pos 0) fl x) next.inventory) read
              ∙ ap (λ (x : Item). put_slot num x next.inventory) put_again
              ∙ put-put num put_in put_in b.inventory)

is_nonzero_more : (a : ℤ) → ltb_ℤ (pos 0) a ≡ true → is_nonzero a ≡ true
is_nonzero_more (pos n) h = ground (arith, h)
is_nonzero_more (negsuc n) h = refl

-- The loop of `rust_pc_additem` never ends, whatever the fuel, for a player who owns of the item as much as
-- its cap says, none of it worn, all of it of other owners, engravings or looks than the item that is
-- added, and who has a free slot, of amount 0: the search for a slot does not count what he owns, and the
-- room in every slot is 0. The item has an id and an amount over 0, and its cap and its stack are over 0.
pub pc_additem_blocked :
    (db : ItemDb) (noted : Bool) (fl : Item) (b : Bag) (num fuel : ℕ)
    → ltb_ℤ (pos 0) (db.maxamount fl.id) ≡ true
    → ltb_ℤ (pos 0) (db.stackamount fl.id) ≡ true
    → ltb_ℤ (pos 0) fl.amount ≡ true
    → owned_all fl b ≡ db.maxamount fl.id
    → All (λ x. (x.id == fl.id && same_make x fl) ≡ false) b.inventory
    → All (λ e. (e.id == fl.id) ≡ false) b.equip
    → (fl.id == 0) ≡ false
    → first_slot b.maxinv (λ inv. inv.id == 0) b.inventory ≡ some num
    → num < length b.inventory
    → (slot_at num b.inventory).amount ≡ pos 0
    → pc_additem db noted fuel fl b ≡ none
pc_additem_blocked db noted fl b num fuel cap stack more full apart off real free inside clear =
    let here = space db noted fl cap stack more b num full apart off real free inside clear in
    let l = lt db noted fl cap stack more b num full apart off real free inside clear in
    pc_additem_stalls db noted fl b
      (next db noted fl cap stack more b num full apart off real free inside clear) num fuel real
      (is_nonzero_more fl.amount more) (rw here l)
      (rw here (once db noted fl cap stack more num b full))
      (space-next db noted fl cap stack more b num full apart off real free inside clear) l l
      (once-next db noted fl cap stack more b num full apart off real free inside clear)
