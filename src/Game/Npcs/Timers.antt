-- ===== src/Game/Npcs/Timers.antt =====
-- `npc_action`, `npc_movetime`, `npc_duration` and `npc_runtimers` of src/game/npc.rs, every 100 ms.
use yuri.Base.{
  ℕ, ◌+◌, ◌-◌, ◌%◌, ◌^◌, Bool, List, [], ◌∷◌, ◌++◌, Option, none, some, if◌then◌else◌, ltb, leb,
  ◌==◌,
}
use yuri.Game.Ids.Search.{npc_start_num, npct_start_num, visited}

-- The part of `NpcData`: three timers and their intervals.
pub record Timers : Type 0 where
  pub time : ℕ
  pub actiontime : ℕ
  pub movetimer : ℕ
  pub movetime : ℕ
  pub duratime : ℕ
  pub duration : ℕ
  pub owner : ℕ

pub data Occasion : Type 0 where
  action move end_action : Occasion

-- A script that runs, and the owner that it gets, if there is one.
pub record Firing : Type 0 where
  pub occasion : Occasion
  pub owner : Option ℕ

-- A sum of `u32`.
abbrev pub later : ℕ → ℕ
later time = (time + 100) % 2 ^ 32

-- `there` says whether `map_id2sd` finds the owner, and `run` is what a script does to the NPC.
module _ (there : ℕ → Bool) (run : Firing → Timers → Timers) where
  abbrev pub owner_of : Timers → Option ℕ
  owner_of nd = if nd.owner == 0 then none else if there nd.owner then some nd.owner else none

  abbrev pub fire : Occasion → Timers → Timers × List Firing
  fire occasion nd =
      let firing : Firing = record { occasion = occasion; owner = owner_of nd } in
      (run firing nd, firing ∷ [])

  unfoldable pub npc_action : Timers → Timers × List Firing
  npc_action nd =
      if leb nd.actiontime (later nd.time)
      then fire action (record nd { time = 0 })
      else (record nd { time = later nd.time }, [])

  unfoldable pub npc_movetime : Timers → Timers × List Firing
  npc_movetime nd =
      if leb nd.movetime (later nd.movetimer)
      then fire move (record nd { movetimer = 0 })
      else (record nd { movetimer = later nd.movetimer }, [])

  unfoldable pub npc_duration : Timers → Timers × List Firing
  npc_duration nd =
      if leb nd.duration (later nd.duratime)
      then fire end_action (record nd { duratime = 0 })
      else (record nd { duratime = later nd.duratime }, [])

  -- The three calls for an NPC.
  unfoldable pub npc_tick : Timers → Timers × List Firing
  unfolding npc_action npc_movetime npc_duration
  npc_tick nd =
      let (nd1, f1) = if ltb 0 nd.actiontime then npc_action nd else (nd, []) in
      let (nd2, f2) = if ltb 0 nd1.movetime then npc_movetime nd1 else (nd1, []) in
      let (nd3, f3) = if ltb 0 nd2.duration then npc_duration nd2 else (nd2, []) in
      (nd3, f1 ++ f2 ++ f3)

  -- For the NPCs with these ids, in order. A script changes only the NPC that it runs for.
  unfoldable pub tick_all : List ℕ → (ℕ → Timers) → (ℕ → Timers) × List Firing
  unfolding npc_tick
  tick_all [] store = (store, [])
  tick_all (id ∷ ids) store =
      let (nd, f) = npc_tick (store id) in
      let (store', fs) = tick_all ids (λ k. if k == id then nd else store k) in (store', f ++ fs)

  -- `table` are the ids in use, `npc_id` and `npctemp_id` the last ids.
  unfoldable pub npc_runtimers : List ℕ → ℕ → ℕ → (ℕ → Timers) → (ℕ → Timers) × List Firing
  unfolding tick_all visited
  npc_runtimers table npc_id npctemp_id store =
      tick_all
        (visited (npc_id + 1 - npc_start_num) npc_start_num table
          ++ visited (npctemp_id + 1 - npct_start_num) npct_start_num table)
        store
