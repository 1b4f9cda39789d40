-- ===== src/Game/Npcs/Period.antt =====
-- How often the scripts of an NPC run.
use native.Mathlib.Decide.{dec_lt}
use native.Mathlib.Nat.{suc-mul}
use yuri.Base.{
  ℕ, zero, suc, ◌+◌, ◌*◌, ◌^◌, ◌≤◌, ◌<◌, ◌≡◌, refl, arith, Bool, true, false, [], leb, length,
}
use yuri.Game.Npcs.Timers.{Timers, Firing, later, npc_action}

module _ (there : ℕ → Bool) (run : Firing → Timers → Timers) where
  -- So many calls of `npc_action`, and how many scripts they run.
  unfoldable pub actions : ℕ → Timers → Timers × ℕ
  unfolding npc_action
  actions zero nd = (nd, 0)
  actions (suc n) nd =
      let (nd', fired) = npc_action there run nd in
      let (last, count) = actions n nd' in (last, length fired + count)

  module _ (keeps : (f : Firing) (nd : Timers) → run f nd ≡ nd) where
    -- A call, where the interval is not over and where it is.
    action_waits :
        (nd : Timers)
        → nd.time + 100 < nd.actiontime
        → nd.actiontime + 100 ≤ 2 ^ 32
        → npc_action there run nd ≡ (record nd { time = nd.time + 100 }, [])
    unfolding npc_action
    action_waits nd early fits =
        let t : later nd.time ≡ nd.time + 100 = ground (arith, early, fits) in
        let no_yet : leb nd.actiontime (nd.time + 100) ≡ false = ground (arith, early) in
        rw (t, no_yet) refl

    action_fires :
        (nd : Timers)
        → nd.actiontime ≤ nd.time + 100
        → nd.time + 100 < 2 ^ 32
        → ((npc_action there run nd).0 ≡ record nd { time = 0 })
          × (length (npc_action there run nd).1 ≡ 1)
    unfolding npc_action
    action_fires nd over fits =
        let t : later nd.time ≡ nd.time + 100 = ground (arith, fits) in
        let now : leb nd.actiontime (nd.time + 100) ≡ true = ground (arith, over) in
        rw (t, now) (keeps _ _, refl)

    -- From `j` calls after a script on, with `p` calls from one script to the next.
    actions_from :
        (n j p : ℕ) (nd : Timers)
        → nd.time ≡ 100 * j
        → j < p
        → nd.actiontime ≤ 100 * p
        → 100 * p < nd.actiontime + 100
        → nd.actiontime + 100 ≤ 2 ^ 32
        → (r : ℕ) × (r < p) × (j + n ≡ (actions n nd).1 * p + r) × ((actions n nd).0.time ≡ 100 * r)
    unfolding actions
    actions_from zero j p nd at before hi lo fits = (j, before, omega arith, at)
    actions_from (suc n) j p nd at before hi lo fits = elim (dec_lt (j + 1) p) [
      | yes more ↦
          let e = action_waits nd (omega arith) fits in
          let ih =
            actions_from n (j + 1) p (record nd { time = nd.time + 100 }) (omega arith) more hi lo
              fits in
          rw e (ih.0, ih.1, omega (arith, ih.2), ih.3)
      | no full ↦
          let e = action_fires nd (omega arith) (omega arith) in
          let ih = actions_from n 0 p (record nd { time = 0 }) refl (omega arith) hi lo fits in
          rw (e.0, e.1)
            (
              ih.0,
              ih.1,
              omega (arith, ih.2, suc-mul (actions n (record nd { time = 0 })).1 p),
              ih.3,
            )
    ]

-- An NPC whose timer is at 0 runs the script for its actions once in every `p` calls of `npc_action`, where
-- `p` hundreds of milliseconds are its interval rounded up: after `n` calls it has run `n / p` times, and
-- the timer says how long ago that was. Scripts leave the NPC as it is, and the interval is at most
-- 2 ^ 32 - 100.
pub actions_lem :
    (there : ℕ → Bool) (run : Firing → Timers → Timers) (n p : ℕ) (nd : Timers)
    → ((f : Firing) (nd : Timers) → run f nd ≡ nd)
    → nd.time ≡ 0
    → 0 < p
    → nd.actiontime ≤ 100 * p
    → 100 * p < nd.actiontime + 100
    → nd.actiontime + 100 ≤ 2 ^ 32
    → (r : ℕ) × (r < p)
      × (n ≡ (actions there run n nd).1 * p + r)
      × ((actions there run n nd).0.time ≡ 100 * r)
actions_lem there run n p nd keeps at some_time hi lo fits =
    let r = actions_from there run keeps n 0 p nd (omega (arith, at)) some_time hi lo fits in
    (r.0, r.1, omega (arith, r.2), r.3)
