-- ===== src/Game/Ai/Fit.antt =====
-- Which targets the scripts of a monster are called with.
use yuri.Base.{
  ℕ, ◌+◌, ◌%◌, ◌^◌, ◌≡◌, ◌⊎◌, refl, arith, Bool, true, false, not, ◌&&◌, ◌||◌, Option, none, some,
  ◌==◌, Bool-cases, All, inl, inr,
}
use yuri.Base.Int.{pos, leb_ℤ}
use yuri.Game.Ai.Brain.{Brain, MobDb, as_u32, as_i32, mob_alive, mob_dead, mob_hit, mob_escape}
use yuri.Game.Ai.Target.{Foe, map_of, is_dead, resolved, mob_resolve_target}
use yuri.Game.Ai.Handle.{
  Script, Event, move, attack, escape, AiCall, World, Tick, script_for, dispatch_to, calling,
  dispatch_ai, due, looking, act, settled, strike, strike_at, awake, awake_if, by_state,
  spawn_check, kind_of, left_alone, mob_handle_sub,
}

-- A target is on the monster's map and not dead; only an attack needs one.
abbrev pub needs_foe : Event → Bool
needs_foe attack = true
needs_foe move = false
needs_foe escape = false

abbrev pub fits : Event → ℕ → Option Foe → Bool
fits event m none = not (needs_foe event)
fits event m (some foe) = map_of foe == m && not (is_dead foe)

abbrev pub Fit : AiCall → Type 0
Fit c = fits c.event c.mob.m c.foe ≡ true

Fit-calling :
    (world : World) (event : Event) (foe : Option Foe) (b : Brain) (s : Option Script)
    → fits event b.m foe ≡ true
    → All Fit (calling world event foe b s).1
Fit-calling world event foe b none h = tt
Fit-calling world event foe b (some s) h = (h, tt)

Fit-dispatch :
    (world : World) (event : Event) (foe : Option Foe) (b : Brain)
    → fits event b.m foe ≡ true
    → All Fit (dispatch_ai world event foe b).1
unfolding dispatch_ai
Fit-dispatch world event foe b h = go b.data_
  where
    go : (o : Option MobDb) → All Fit (dispatch_to world event foe b o).1
    go none = tt
    go (some d) = Fit-calling world event foe b (script_for d.subtype) h

-- What is resolved is a target that any event may have, or there is none.
fits-resolved :
    (event : Event) (o : Option Foe) (b : Brain)
    → ((resolved o b).0 ≡ none) ⊎ (fits event (resolved o b).1.m (resolved o b).0 ≡ true)
fits-resolved event none b = inl refl
fits-resolved event (some foe) b = elim (Bool-cases (map_of foe == b.m)) [
  | inr far ↦ rw far (inl refl)
  | inl near ↦ elim (Bool-cases (is_dead foe)) [
    | inl dead ↦ rw (near, dead) (inl refl)
    | inr alive ↦ rw (near, alive) (inr (rw (near, alive) refl))
  ]
]

module _ (world : World) where
  -- A move or an escape.
  Fit-act :
      (event : Event) (d : MobDb) (b : Brain)
      → needs_foe event ≡ false
      → All Fit (act world event d b).calls
  unfolding act mob_resolve_target
  Fit-act event d b free =
      let look = looking world d b in
      let o = world.id2bl look.target in
      Fit-dispatch world event (resolved o look).0 (record ((resolved o look).1) { time = pos 0 })
        (elim (fits-resolved event o look) [ inl e ↦ rw (e, free) refl | inr f ↦ f ])

  Fit-settled : (before : Brain) (t : Tick) → All Fit t.calls → All Fit (settled before t).calls
  Fit-settled before t h = elim (Bool-cases (t.mob.x == before.x && t.mob.y == before.y)) [
    | inl e ↦ rw e h
    | inr e ↦ rw e h
  ]

  Fit-strike_at :
      (foe : Option Foe) (b : Brain)
      → (foe ≡ none) ⊎ (fits attack b.m foe ≡ true)
      → All Fit (strike_at world foe b).calls
  Fit-strike_at none b h = tt
  Fit-strike_at (some foe) b h = elim (Bool-cases (map_of foe == b.m)) [
    | inr far ↦ rw far tt
    | inl near ↦ rw near (elim h [
      | inl e ↦ absurd (ground (arith, e))
      | inr f ↦ Fit-dispatch world attack (some foe) (record b { time = pos 0 }) f
    ])
  ]

  Fit-strike : (b : Brain) → All Fit (strike world b).calls
  unfolding strike mob_resolve_target
  Fit-strike b =
      let o = world.id2bl b.target in
      Fit-strike_at (resolved o b).0 (resolved o b).1 (fits-resolved attack o b)

  Fit-awake : (d : MobDb) (b : Brain) → All Fit (awake world d b).calls
  Fit-awake d b = elim (Bool-cases (b.state == mob_hit)) [
    | inr other ↦
        elim (Bool-cases (not (due b.time d.movetime b.newmove) || leb_ℤ (pos 2) d.kind)) [
          | inl wait ↦ rw (other, wait) tt
          | inr act_now ↦ elim (Bool-cases (b.state == mob_alive)) [
            | inl alive ↦
                rw (other, act_now, alive)
                  (Fit-settled b (act world move d b) (Fit-act move d b refl))
            | inr runs ↦ rw (other, act_now, runs) (Fit-act escape d b refl)
          ]
        ]
    | inl hit ↦ elim (Bool-cases (not (due b.time d.atktime b.newatk) || leb_ℤ (pos 2) d.kind)) [
      | inl wait ↦ rw (hit, wait) tt
      | inr act_now ↦ rw (hit, act_now) (Fit-strike b)
    ]
  ]

  Fit-awake_if : (o : Option MobDb) (b : Brain) → All Fit (awake_if world o b).calls
  Fit-awake_if none b = tt
  Fit-awake_if (some d) b = Fit-awake d b

  Fit-by_state : (b : Brain) → All Fit (by_state world b).calls
  Fit-by_state b = elim (Bool-cases (b.state == mob_dead)) [
    | inl dead ↦ rw dead tt
    | inr alive ↦
        elim (Bool-cases (b.state == mob_alive || b.state == mob_hit || b.state == mob_escape)) [
          | inr idle ↦ rw (alive, idle) tt
          | inl acts ↦ rw (alive, acts) (Fit-awake_if b.data_ b)
        ]
  ]

-- Whatever state a monster is in, and whatever its scripts do to it, each script that its tick calls gets
-- a target that stands on the map the monster is on at that moment and is not a dead monster or a dead
-- player, or it gets none; an attack always gets one.
pub mob_handle_sub-Fit : (world : World) (b : Brain) → All Fit (mob_handle_sub world b).calls
unfolding mob_handle_sub
mob_handle_sub-Fit world b =
    let b1 = spawn_check world b in
    elim (Bool-cases (leb_ℤ (pos 2) (kind_of b1.data_))) [
      | inl still ↦ rw still tt
      | inr moves ↦ elim (Bool-cases (left_alone (world.users b1.m) b1)) [
        | inl alone ↦ rw (moves, alone) tt
        | inr seen ↦
            rw (moves, seen)
              (Fit-by_state world (record b1 { time = as_i32 ((as_u32 b1.time + 50) % 2 ^ 32) }))
      ]
    ]
