-- ===== src/Game/Inventory/Stall.antt =====
-- Whether the loop of `pc_additem` ends.
use yuri.Base.{
  ℕ, zero, suc, ◌<◌, ◌≡◌, ◌∙◌, ap, refl, arith, Bool, true, false, ◌&&◌, [], none, some,
  if◌then◌else◌, ◌==◌, ltb,
}
use yuri.Base.Int.{pos, ltb_ℤ}
use yuri.Game.Inventory.Item.{Item, Bag, ItemDb, slot_at, put_slot}
use yuri.Game.Inventory.Space.{pc_isinvenspace, pc_isinvenitemspace}
use yuri.Game.Inventory.Add.{add_once, add_loop, pc_additem, is_nonzero, take_over}

-- A round of the loop, by what its body gives.
add_loop_round :
    (db : ItemDb) (noted : Bool) (num : ℕ) (fl : Item) (b : Bag) (fuel : ℕ) (w : Bag × Item)
    → add_once db noted num fl b ≡ w
    → add_loop db noted (suc fuel) num fl b ≡ (
        if is_nonzero w.1.amount && ltb (pc_isinvenspace db w.1 w.0) b.maxinv
        then add_loop db noted fuel (pc_isinvenspace db w.1 w.0) w.1 w.0
        else some (w.0, w.1, pc_isinvenspace db w.1 w.0))
unfolding add_loop
add_loop_round db noted num fl b fuel w h =
    ap
      (λ (w : Bag × Item).
        if is_nonzero w.1.amount && ltb (pc_isinvenspace db w.1 w.0) b.maxinv
        then add_loop db noted fuel (pc_isinvenspace db w.1 w.0) w.1 w.0
        else some (w.0, w.1, pc_isinvenspace db w.1 w.0))
      h

-- The loop does not end where a round changes nothing and the slot stays chosen.
add_loop_stalls :
    (db : ItemDb) (noted : Bool) (num : ℕ) (fl : Item) (b : Bag) (fuel : ℕ)
    → pc_isinvenspace db fl b ≡ num
    → num < b.maxinv
    → is_nonzero fl.amount ≡ true
    → add_once db noted num fl b ≡ (b, fl)
    → add_loop db noted fuel num fl b ≡ none
add_loop_stalls db noted num fl b zero chosen inside some_left idle = unfold add_loop in refl
add_loop_stalls db noted num fl b (suc fuel) chosen inside some_left idle =
    add_loop_round db noted num fl b fuel (b, fl) idle
    ∙ rw chosen (
        ground (
          arith,
          some_left,
          inside,
          add_loop_stalls db noted num fl b fuel chosen inside some_left idle,
        ))

-- What `pc_additem` gives where the loop does not end.
pc_additem_running :
    (db : ItemDb) (noted : Bool) (fl : Item) (b : Bag) (fuel : ℕ)
    → (fl.id == 0) ≡ false
    → pc_isinvenspace db fl b < b.maxinv
    → add_loop db noted fuel (pc_isinvenspace db fl b) fl b ≡ none
    → pc_additem db noted fuel fl b ≡ none
unfolding pc_additem
pc_additem_running db noted fl b fuel real inside run = rw (run, real) (ground (arith, inside))

-- An item with an id, and an amount other than 0, is never done being added, whatever the fuel, if the
-- first round of the loop, at the slot chosen below `maxinv`, leaves the item as it was and leads to a
-- bag where a slot below `maxinv` is chosen at which a round changes neither the item nor the bag.
pub pc_additem_stalls :
    (db : ItemDb) (noted : Bool) (fl : Item) (b b' : Bag) (num' : ℕ) (fuel : ℕ)
    → (fl.id == 0) ≡ false
    → is_nonzero fl.amount ≡ true
    → pc_isinvenspace db fl b < b.maxinv
    → add_once db noted (pc_isinvenspace db fl b) fl b ≡ (b', fl)
    → pc_isinvenspace db fl b' ≡ num'
    → num' < b.maxinv
    → num' < b'.maxinv
    → add_once db noted num' fl b' ≡ (b', fl)
    → pc_additem db noted fuel fl b ≡ none
pc_additem_stalls db noted fl b b' num' fuel real some_left inside first chosen in0 in1 idle =
    pc_additem_running db noted fl b fuel real inside (run fuel)
  where
    run : (n : ℕ) → add_loop db noted n (pc_isinvenspace db fl b) fl b ≡ none
    run zero = unfold add_loop in refl
    run (suc n) =
        add_loop_round db noted (pc_isinvenspace db fl b) fl b n (b', fl) first
        ∙ rw chosen (
            ground (
              arith,
              some_left,
              in0,
              add_loop_stalls db noted num' fl b' n chosen in1 some_left idle,
            ))

add_once_fits :
    (db : ItemDb) (noted : Bool) (num : ℕ) (fl : Item) (b : Bag)
    → ltb_ℤ (pc_isinvenitemspace db num fl b) fl.amount ≡ false
    → add_once db noted num fl b ≡ (
      record b {
        inventory =
            put_slot num (take_over noted fl.amount fl (slot_at num b.inventory)) b.inventory;
      },
      record fl { amount = pos 0 },
    )
unfolding add_once
add_once_fits db noted num fl b fits = rw fits refl

-- What `pc_additem` gives where the loop ends with nothing left.
pc_additem_done :
    (db : ItemDb) (noted : Bool) (fl : Item) (b : Bag) (fuel : ℕ) (b' : Bag) (fl' : Item) (num' : ℕ)
    → (fl.id == 0) ≡ false
    → pc_isinvenspace db fl b < b.maxinv
    → is_nonzero fl'.amount ≡ false
    → add_loop db noted fuel (pc_isinvenspace db fl b) fl b ≡ some (b', fl', num')
    → pc_additem db noted fuel fl b ≡ some (record { bag = b'; fl = fl'; dropped = [] })
unfolding pc_additem
pc_additem_done db noted fl b fuel b' fl' num' real inside empty run =
    rw (run, real) (ground (arith, inside, empty))

-- An item with an id whose whole amount fits into the slot that is chosen below `maxinv` is added in
-- one round: the slot takes over the item and has its amount more, nothing is left of the item, nothing
-- goes to the floor and the other slots stay.
pub pc_additem_fits :
    (db : ItemDb) (noted : Bool) (fl : Item) (b : Bag) (fuel : ℕ)
    → (fl.id == 0) ≡ false
    → pc_isinvenspace db fl b < b.maxinv
    → ltb_ℤ (pc_isinvenitemspace db (pc_isinvenspace db fl b) fl b) fl.amount ≡ false
    → pc_additem db noted (suc fuel) fl b
      ≡ some (record {
        bag = record b {
          inventory =
              put_slot
                (pc_isinvenspace db fl b)
                (take_over noted fl.amount fl (slot_at (pc_isinvenspace db fl b) b.inventory))
                b.inventory;
        };
        fl = record fl { amount = pos 0 };
        dropped = [];
      })
pc_additem_fits db noted fl b fuel real inside fits =
    pc_additem_done db noted fl b (suc fuel) _ _ _ real inside refl (
      add_loop_round db noted (pc_isinvenspace db fl b) fl b fuel _
        (add_once_fits db noted (pc_isinvenspace db fl b) fl b fits))
