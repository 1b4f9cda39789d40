-- ===== src/Game/Ids/Search.antt =====
-- The searches for an id that is not in the table, and the range that the timer visits. Ids stay below
-- 2 ^ 32.
use yuri.Base.{
  ℕ, zero, suc, ◌+◌, ◌-◌, Bool, false, not, ◌&&◌, ◌||◌, List, [], ◌∷◌, if◌then◌else◌, ltb, leb,
  ◌==◌, length,
}

abbrev pub mob_start_num : ℕ
mob_start_num = 1073741823

abbrev pub mobot_start_num : ℕ
mobot_start_num = 1173741823

abbrev pub floor_item_start_num : ℕ
floor_item_start_num = 2047483647

abbrev pub npc_start_num : ℕ
npc_start_num = 3221225472

-- `map_id2bl(x)` is not null.
abbrev pub taken : ℕ → List ℕ → Bool
taken x [] = false
taken x (id ∷ table) = id == x || taken x table

-- `map_deliddb`.
unfoldable pub without : ℕ → List ℕ → List ℕ
without x [] = []
without x (id ∷ table) = let rest = without x table in if id == x then rest else id ∷ rest

-- The rounds of `mob_get_free_id` from `x` on: the id, 0 if there is none, and `MOB_ONETIME_MAX`. A
-- round for each id in the table, and one more, are enough.
unfoldable pub free_from : ℕ → List ℕ → ℕ → ℕ → ℕ × ℕ
free_from zero table x max = (0, max)
free_from (suc rounds) table x max =
    let max' = if x == max then max + 1 else max in
    let rest = free_from rounds table (x + 1) max' in
    if leb npc_start_num x || x == max && leb npc_start_num max
    then (0, max)
    else if taken x table
    then rest
    else (x, max')

unfoldable pub mob_get_free_id : List ℕ → ℕ → ℕ × ℕ
unfolding free_from
mob_get_free_id table max = free_from (suc (length table)) table mobot_start_num max

-- The walk of `free_onetime` over the range; it ends at the first id that is free.
unfoldable pub compact : ℕ → List ℕ → ℕ → ℕ → List ℕ × ℕ
unfolding without
compact zero table x max = (table, max)
compact (suc rounds) table x max =
    let rest = compact rounds table (x + 1) max in
    if ltb max x || not (taken x table)
    then (table, max)
    else if x == max
    then (without x table, max - 1)
    else rest

-- The mob is out of the table already.
unfoldable pub free_onetime : List ℕ → ℕ → List ℕ × ℕ
unfolding compact
free_onetime table max = compact (suc (max - mobot_start_num)) table mobot_start_num max

-- The table, `MOB_ONETIME_MAX`, and the ids of the mobs of `mobspawn_onetime`; 0 for one that got none.
-- What is spawned is not looked at here, and memory is there.
unfoldable pub spawn_loop : ℕ → List ℕ → ℕ → List ℕ × ℕ × List ℕ
unfolding mob_get_free_id
spawn_loop zero table max = (table, max, [])
spawn_loop (suc times) table max =
    let (id, max') = mob_get_free_id table max in
    let (table', last, ids) = spawn_loop times (if id == 0 then table else id ∷ table) max' in
    (table', last, id ∷ ids)

unfoldable pub mobspawn_onetime : ℕ → List ℕ → ℕ → List ℕ × ℕ × List ℕ
unfolding spawn_loop
mobspawn_onetime times table max =
    if times == 0 || ltb 1024 times then (table, max, []) else spawn_loop times table max

-- The ids in the table from `x` on, for so many ids.
unfoldable pub visited : ℕ → ℕ → List ℕ → List ℕ
visited zero x table = []
visited (suc n) x table =
    let rest = visited n (x + 1) table in if taken x table then x ∷ rest else rest

-- The blocks that `mob_timer_spawns` ticks: first the mobs of the map, then the others.
unfoldable pub mob_timer_spawns : ℕ → ℕ → ℕ → List ℕ → List ℕ × List ℕ
unfolding visited
mob_timer_spawns spawn_start spawn_max onetime_max table = (
  visited (spawn_max - spawn_start) spawn_start table,
  visited (onetime_max - mobot_start_num) mobot_start_num table,
)

-- The rounds of `npc_get_new_npcid` and of `npc_get_new_npctempid`, which differ in where they start: the
-- id, and the high-water mark.
unfoldable pub npc_from : ℕ → List ℕ → ℕ → ℕ → ℕ × ℕ
npc_from zero table x mark = (mark + 1, mark + 1)
npc_from (suc rounds) table x mark =
    let mark' = if x == mark then mark + 1 else mark in
    let rest = npc_from rounds table (x + 1) mark' in
    if ltb mark x then (mark + 1, mark + 1) else if taken x table then rest else (x, mark')

unfoldable pub npc_get_new_npcid : List ℕ → ℕ → ℕ × ℕ
unfolding npc_from
npc_get_new_npcid table npc_id = npc_from (suc (length table)) table npc_start_num npc_id

abbrev pub npct_start_num : ℕ
npct_start_num = 3321225472

unfoldable pub npc_get_new_npctempid : List ℕ → ℕ → ℕ × ℕ
unfolding npc_from
npc_get_new_npctempid table mark = npc_from (suc (length table)) table npct_start_num mark

-- `NPCTEMP_ID` when an NPC goes.
unfoldable pub npc_idlower : ℕ → ℕ → ℕ
npc_idlower id mark = if leb npct_start_num id && not (id == 4294967295) then mark - 1 else mark
