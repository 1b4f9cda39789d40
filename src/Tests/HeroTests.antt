-- ===== src/Tests/HeroTests.antt =====
-- The timers and the equipment of a player on concrete inputs.
use yuri.Base.{
  Option, length, suc, ℕ, ◌≡◌, refl, [], ◌∷◌, some, none, true, false, arith, inl, inr, map, ◌||◌,
  if◌then◌else◌, ◌==◌, replicate,
}
use yuri.Base.Int.{ℤ, pos, ◌+ℤ◌, ◌-ℤ◌}
use yuri.Game.Inventory.Item.{Item, zeroed, slot_at}
use yuri.Game.Magic.Slot.{SkillInfo, Hook, nobody, send_aether}
use yuri.Game.Magic.Ticks.{uncasts, sum_of}
use yuri.Game.Magic.Timers.{Bearer, bl_aethertimer}
use yuri.Game.Magic.Ends.{after, ended, calls, calls-after}
use yuri.Game.Magic.Starved.{bl_aethertimer_starved}
use yuri.Game.Equip.Wear.{
  Gear, Wearer, worn, pc_canequipitem, pc_equipitem, hooks, eq_weap, eq_shield,
}
use yuri.Game.Equip.Check.{clashes, wearing, pc_canequipitem-clashes}
use yuri.Game.Equip.Script.{target_slot, pc_equipscript}
use yuri.Game.Clock.Timers.{castusetimer, pc_starttimer, pc_stoptimer, start_one, stop_one, removed}
use yuri.Game.Clock.Left.{runs, pc_stoptimer-pc_starttimer}
use yuri.Game.Equip.Kept.{total, total-pc_equipscript}

abbrev spell : ℕ → ℤ → ℤ → SkillInfo
spell id duration aether = record {
  id = id;
  duration = duration;
  aether = aether;
  caster_id = 0;
  animation = 3;
}

-- A spell of two seconds and one of five, with an empty slot in between.
abbrev wizard : Bearer
wizard = record {
  skill = 4 ∷ 0 ∷ [];
  equip = [];
  dura_aether =
      spell 1 (pos 2000) (pos 3000) ∷ spell 0 (pos 0) (pos 0) ∷ spell 2 (pos 5000) (pos 0) ∷ [];
}

-- A script that takes off all that is worn.
abbrev strips : Hook → ℕ → Option ℕ → Bearer → Bearer
strips hook id caster sd = record sd { equip = [] }

calls-after_example :
    ((calls (λ id. nobody) strips 2 wizard).0.dura_aether ≡ map (after 2) wizard.dura_aether)
    × (uncasts (calls (λ id. nobody) strips 2 wizard).1 ≡ sum_of (ended 2) wizard.dura_aether)
calls-after_example =
    calls-after (λ id. nobody) strips 2 wizard (λ hook id caster b. refl)
      (inr (refl, refl, refl, omega arith), (inl refl, (inr (refl, refl, refl, omega arith), tt)))

-- After two seconds the first spell is over, and its aether is not.
one_ended :
    (sum_of (ended 2) wizard.dura_aether ≡ 1)
    × (map (after 2) wizard.dura_aether
        ≡ record { id = 1; duration = pos 0; aether = pos 1000; caster_id = 0; animation = 0 }
          ∷ spell 0 (pos 0) (pos 0)
          ∷ spell 2 (pos 3000) (pos 0)
          ∷ [])
one_ended = (refl, refl)

bl_aethertimer_starved_example :
    bl_aethertimer
      (spell 0 (pos 0) (pos 0) ∷ spell 2 (pos 5000) (pos 0) ∷ spell 1 (pos 2000) (pos 3000) ∷ [])
    ≡ (
      spell 0 (pos 0) (pos 0) ∷ spell 2 (pos 5000) (pos 0) ∷ spell 1 (pos 2000) (pos 3000) ∷ [],
      send_aether 2 ∷ [],
    )
bl_aethertimer_starved_example =
    bl_aethertimer_starved (spell 0 (pos 0) (pos 0) ∷ []) (spell 1 (pos 2000) (pos 3000) ∷ [])
      (spell 2 (pos 5000) (pos 0)) (refl, tt) refl refl refl

abbrev thing : ℕ → ℤ → Item
thing id amount = record zeroed { id = id; amount = amount }

-- Item 1 is a sword, item 2 a shield, item 3 a ring for the left hand, item 4 a weapon for both hands.
abbrev smith : Gear
smith = record {
  look = λ id. if id == 4 then pos 10000 else pos 1;
  kind = λ id. if id == 1 || id == 4 then pos 3 else if id == 2 then pos 5 else pos 7;
  level = λ id. pos 0;
  mightreq = λ id. pos 0;
  sex = λ id. pos 2;
  vita = λ id. pos 0;
  mana = λ id. pos 0;
}

-- What a player has in a slot of the inventory and wears as a shield, and the item that is asked for.
abbrev knight : Item → Item → ℕ → Wearer
knight item shield asked = record {
  bag = record {
    inventory = item ∷ zeroed ∷ [];
    equip = zeroed ∷ zeroed ∷ shield ∷ replicate 12 zeroed;
    maxinv = 2;
    takeoffid = none;
  };
  bl_id = 1;
  state = pos 0;
  gm_level = pos 0;
  level = pos 1;
  might = pos 0;
  sex = pos 0;
  max_hp = 10;
  max_mp = 10;
  equipid = asked;
  invslot = 0;
  target = 0;
  attacker = 0;
  enchanted = false;
  flank = 0;
  backstab = 0;
}

-- He is told that the hooks run for a sword, and not for a weapon of two hands.
asks_for :
    ((pc_equipitem smith (pos 0) (knight (thing 1 (pos 1)) (thing 2 (pos 1)) 0)).1 ≡ hooks)
    × ((pc_equipitem smith (pos 0) (knight (thing 1 (pos 1)) (thing 2 (pos 1)) 0)).0.equipid ≡ 1)
    × (clashes smith 4 2 ≡ true)
unfolding pc_equipitem
asks_for = (refl, refl, refl)

passes : pc_canequipitem smith (pos 0) (knight (thing 1 (pos 1)) (thing 2 (pos 1)) 0) ≡ 0
unfolding pc_canequipitem
passes = refl

pc_canequipitem-clashes_example :
    clashes smith
      (worn eq_weap (wearing 0 0 (knight (thing 1 (pos 1)) (thing 2 (pos 1)) 0)))
      (worn eq_shield (wearing 0 0 (knight (thing 1 (pos 1)) (thing 2 (pos 1)) 0)))
    ≡ false
pc_canequipitem-clashes_example =
    pc_canequipitem-clashes smith 0 0 (knight (thing 1 (pos 1)) (thing 2 (pos 1)) 0) (omega arith)
      (omega arith) refl refl passes refl

ring_slot : target_slot (knight (thing 3 (pos 2)) zeroed 3) (smith.kind 3 -ℤ pos 3) ≡ pos 4
unfolding target_slot ◌-ℤ◌
ring_slot = refl

total-pc_equipscript_example :
    (w' : Wearer) × (pc_equipscript smith (λ w. w) (λ w. w) (knight (thing 3 (pos 2)) zeroed 3)
      ≡ some w')
    × ((slot_at 4 w'.bag.equip).id ≡ 3)
    × (total 3 w'.bag.inventory +ℤ total 3 w'.bag.equip
        ≡ total 3 (knight (thing 3 (pos 2)) zeroed 3).bag.inventory
          +ℤ total 3 (knight (thing 3 (pos 2)) zeroed 3).bag.equip)
total-pc_equipscript_example =
    total-pc_equipscript smith (λ w. w) (λ w. w) (knight (thing 3 (pos 2)) zeroed 3) 4 3 (λ v. refl)
      ring_slot refl refl (omega arith) (omega arith) (omega arith) refl refl refl

pc_stoptimer-pc_starttimer_example :
    runs
      ((pc_starttimer suc (pos 0) (record { held = λ k. 0; wheel = []; given = 0 })).held
        castusetimer)
      (pc_stoptimer
        (pc_starttimer suc (pos 0) (record { held = λ k. 0; wheel = []; given = 0 }))).wheel
    ≡ true
pc_stoptimer-pc_starttimer_example =
    pc_stoptimer-pc_starttimer suc (pos 0) (λ i. ground arith) (λ i j h. ground (arith, h))

-- Of the eleven timers one is left.
one_left :
    length
      (pc_stoptimer
        (pc_starttimer suc (pos 0) (record { held = λ k. 0; wheel = []; given = 0 }))).wheel
    ≡ 1
unfolding pc_stoptimer pc_starttimer start_one stop_one removed
one_left = refl
