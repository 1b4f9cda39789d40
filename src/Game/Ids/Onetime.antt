-- ===== src/Game/Ids/Onetime.antt =====
-- The mobs that are spawned once, over any run of spawns and deaths: the range that the timer visits holds
-- them all, and it never shrinks.
use native.Mathlib.Decide.{dec_le}
use native.Mathlib.Nat.{add-zero, zero-add, add_assoc}
use yuri.Base.{
  All, ℕ, zero, suc, ◌+◌, ◌-◌, ◌≤◌, ◌<◌, ◌≡◌, ◌⊎◌, inl, inr, refl, arith, true, false, ◌||◌, List,
  [], ◌∷◌, if◌then◌else◌, ltb, ◌==◌, Bool-cases,
}
use yuri.Game.Ids.Search.{
  taken, without, mobot_start_num, floor_item_start_num, mob_get_free_id, compact, free_onetime,
  spawn_loop, mobspawn_onetime, visited, mob_timer_spawns,
}
use yuri.Game.Ids.Free.{Found, mob_get_free_id-Found}

-- What happens to the table: a spawn, a death, which ends with `free_onetime`, and blocks of others, such as
-- items on the floor, that come and go.
pub data Event : Type 0 where
  spawns : (times : ℕ) → Event
  dies : (id : ℕ) → Event
  placed : (id : ℕ) → Event
  gone : (id : ℕ) → Event

unfoldable pub step : Event → List ℕ × ℕ → List ℕ × ℕ
unfolding mobspawn_onetime free_onetime without
step (spawns times) (table, mark) = let (t, m, ids) = mobspawn_onetime times table mark in (t, m)
step (dies id) (table, mark) = free_onetime (without id table) mark
step (placed id) (table, mark) = (id ∷ table, mark)
step (gone id) (table, mark) = (without id table, mark)

unfoldable pub run : List Event → List ℕ × ℕ → List ℕ × ℕ
unfolding step
run [] s = s
run (e ∷ events) s = run events (step e s)

-- Others have no ids below those of the items on the floor.
abbrev pub Elsewhere : Event → Type 0
Elsewhere (placed id) = (id < mobot_start_num) ⊎ (floor_item_start_num ≤ id)
Elsewhere e = Unit

abbrev pub times_of : Event → ℕ
times_of (spawns times) = times
times_of e = 0

abbrev pub spawned : List Event → ℕ
spawned [] = 0
spawned (e ∷ events) = times_of e + spawned events

-- After at most so many spawns.
record Inv (count : ℕ) (s : List ℕ × ℕ) : Type 0 where
  lo : mobot_start_num ≤ s.1
  hi : s.1 ≤ mobot_start_num + count
  top : (k : ℕ) → mobot_start_num ≤ k → k < floor_item_start_num → taken k s.0 ≡ true → k < s.1

taken-without : (k x : ℕ) (table : List ℕ) → taken k (without x table) ≡ true → taken k table ≡ true
unfolding without
taken-without k x [] h = h
taken-without k x (id ∷ table) h = ground (arith, h, taken-without k x table)

-- Nothing is compacted where the high-water mark itself is free.
compact_idle :
    (rounds : ℕ) (table : List ℕ) (x mark : ℕ)
    → taken mark table ≡ false
    → compact rounds table x mark ≡ (table, mark)
unfolding compact
compact_idle zero table x mark free = refl
compact_idle (suc rounds) table x mark free =
    ground (arith, free, compact_idle rounds table (x + 1) mark)

module _ {count : ℕ} (few : mobot_start_num + count < floor_item_start_num) where
  mark_free : (s : List ℕ × ℕ) → Inv count s → taken s.1 s.0 ≡ false
  mark_free s i = elim (Bool-cases (taken s.1 s.0)) [
    | inl used ↦ absurd (omega (arith, i.top s.1 i.lo (omega (arith, i.hi)) used))
    | inr free ↦ free
  ]

  free_onetime_idle : (s : List ℕ × ℕ) → Inv count s → free_onetime s.0 s.1 ≡ s
  unfolding free_onetime
  free_onetime_idle s i =
      compact_idle (suc (s.1 - mobot_start_num)) s.0 mobot_start_num s.1 (mark_free s i)

without-Inv : (count id : ℕ) (s : List ℕ × ℕ) → Inv count s → Inv count (without id s.0, s.1)
without-Inv count id s i = record {
  lo = i.lo;
  hi = i.hi;
  top = λ k a b h. i.top k a b (taken-without k id s.0 h);
}

-- A spawn that gets an id adds it below the new mark; one more spawn was made.
added-Inv :
    (count : ℕ) (table : List ℕ) (mark : ℕ) (r : ℕ × ℕ)
    → mobot_start_num + count < floor_item_start_num
    → Inv count (table, mark)
    → Found mobot_start_num mark table r
    → Inv (count + 1) (if r.0 == 0 then table else r.0 ∷ table, r.1)
added-Inv count table mark (id, mark') few i (inr (zero_id, all)) =
    absurd (cc (all mark i.lo (omega (arith, i.hi)), mark_free few (table, mark) i))
added-Inv count table mark (id, mark') few i (inl (lo, hi, free, all, up)) =
    let low : id ≤ mark = below (dec_le id mark) in
    let used : (id == 0) ≡ false = ground (arith, lo) in
    rw used (record {
      lo = omega (arith, i.lo);
      hi = omega (arith, i.hi);
      top = λ k a b h. still_below k (i.top k a b) h;
    })
  where
    below : Dec (id ≤ mark) → id ≤ mark
    below (yes p) = p
    below (no p) = absurd (cc (all mark i.lo (omega arith), mark_free few (table, mark) i))

    still_below :
        (k : ℕ) → (taken k table ≡ true → k < mark) → taken k (id ∷ table) ≡ true → k < mark'
    still_below k old h = ground (arith, up, h, old)

spawn_loop-Inv :
    (times count : ℕ) (table : List ℕ) (mark : ℕ)
    → mobot_start_num + (count + times) < floor_item_start_num
    → Inv count (table, mark)
    → Inv (count + times) ((spawn_loop times table mark).0, (spawn_loop times table mark).1)
unfolding spawn_loop
spawn_loop-Inv zero count table mark few i = rw (add-zero count) i
spawn_loop-Inv (suc times) count table mark few i =
    let found = mob_get_free_id-Found table mark i.lo (omega (arith, i.hi)) in
    let next = mob_get_free_id table mark in
    rw (moved count times) (
      spawn_loop-Inv times (count + 1) (if next.0 == 0 then table else next.0 ∷ table) next.1
        (omega arith) (added-Inv count table mark next (omega arith) i found))
  where
    moved : (a b : ℕ) → a + suc b ≡ (a + 1) + b
    moved a b = omega arith

more-Inv : (count more : ℕ) (s : List ℕ × ℕ) → Inv count s → Inv (count + more) s
more-Inv count more s i = record { lo = i.lo; hi = omega (arith, i.hi); top = i.top }

mobspawn-Inv :
    (times count : ℕ) (table : List ℕ) (mark : ℕ)
    → mobot_start_num + (count + times) < floor_item_start_num
    → Inv count (table, mark)
    → Inv
        (count + times)
        ((mobspawn_onetime times table mark).0, (mobspawn_onetime times table mark).1)
unfolding mobspawn_onetime
mobspawn-Inv times count table mark few i = elim (Bool-cases (times == 0 || ltb 1024 times)) [
  | inl out ↦ rw (mobspawn_onetime, out) (more-Inv count times (table, mark) i)
  | inr fine ↦ rw (mobspawn_onetime, fine) (spawn_loop-Inv times count table mark few i)
]

step-Inv :
    (e : Event) (count : ℕ) (s : List ℕ × ℕ)
    → mobot_start_num + (count + times_of e) < floor_item_start_num
    → Elsewhere e
    → Inv count s
    → Inv (count + times_of e) (step e s)
unfolding step
step-Inv (spawns times) count (table, mark) few away i = mobspawn-Inv times count table mark few i
step-Inv (dies id) count (table, mark) few away i =
    let j = without-Inv count id (table, mark) i in
    rw (free_onetime_idle (omega arith) (without id table, mark) j)
      (more-Inv count 0 (without id table, mark) j)
step-Inv (placed id) count (table, mark) few away i = record {
  lo = i.lo;
  hi = omega (arith, i.hi);
  top = λ k a b h. ground (arith, away, h, i.top k a b);
}
step-Inv (gone id) count (table, mark) few away i =
    more-Inv count 0 _ (without-Inv count id (table, mark) i)

run-Inv :
    (events : List Event) (count : ℕ) (s : List ℕ × ℕ)
    → mobot_start_num + (count + spawned events) < floor_item_start_num
    → All Elsewhere events
    → Inv count s
    → Inv (count + spawned events) (run events s)
unfolding run
run-Inv [] count s few away i = more-Inv count 0 s i
run-Inv (e ∷ events) count s few away i = rw (← add_assoc count (times_of e) (spawned events)) (
    run-Inv events (count + times_of e) (step e s) (omega arith) away.1
      (step-Inv e count s (omega arith) away.0 i))

taken-visited :
    (k n x : ℕ) (table : List ℕ)
    → x ≤ k
    → k < x + n
    → taken k table ≡ true
    → taken k (visited n x table) ≡ true
unfolding visited
taken-visited k zero x table lo hi h = absurd (omega arith)
taken-visited k (suc n) x table lo hi h = elim (Bool-cases (x == k)) [
  | inl here ↦ let e : x ≡ k = ground (arith, here) in rw (e, h) (ground (arith, here))
  | inr there ↦ elim (Bool-cases (taken x table)) [
    | inl used ↦ rw used (
        ground
          (arith, there, taken-visited k n (x + 1) table (ground (arith, there)) (omega arith) h))
    | inr free ↦ rw free (taken-visited k n (x + 1) table (ground (arith, there)) (omega arith) h)
  ]
]

-- The start: no mob that is spawned once, and no id of another block in between.
abbrev pub Fresh : List ℕ → Type 0
Fresh table = (k : ℕ) → mobot_start_num ≤ k → k < floor_item_start_num → taken k table ≡ true → ⊥

final :
    (table : List ℕ) (events : List Event)
    → Fresh table
    → All Elsewhere events
    → mobot_start_num + spawned events < floor_item_start_num
    → Inv (spawned events) (run events (table, mobot_start_num))
final table events none_yet away few = rw (← zero-add (spawned events)) (
    run-Inv events 0 (table, mobot_start_num) (omega arith) away
      (record { lo = omega arith; hi = omega arith; top = λ k a b h. absurd (none_yet k a b h) }))

-- After any run of spawns and deaths that starts with none of them, every id in the table from that of the
-- first mob to that of the first item on the floor is visited by the timer. The spawns are fewer than
-- the ids in between, and other blocks have no ids there.
pub run-visited :
    (table : List ℕ) (events : List Event) (spawn_start spawn_max k : ℕ)
    → Fresh table
    → All Elsewhere events
    → mobot_start_num + spawned events < floor_item_start_num
    → mobot_start_num ≤ k
    → k < floor_item_start_num
    → taken k (run events (table, mobot_start_num)).0 ≡ true
    → taken k
        (mob_timer_spawns spawn_start spawn_max
          (run events (table, mobot_start_num)).1
          (run events (table, mobot_start_num)).0).1
      ≡ true
unfolding mob_timer_spawns
run-visited table events spawn_start spawn_max k none_yet away few lo hi h =
    let i = final table events none_yet away few in
    let s = run events (table, mobot_start_num) in
    taken-visited k (s.1 - mobot_start_num) mobot_start_num s.0 lo
      (omega (arith, i.lo, i.top k lo hi h)) h

-- In every state of such a run, `free_onetime` leaves the table and the high-water mark as they are.
pub run-free_onetime :
    (table : List ℕ) (events : List Event)
    → Fresh table
    → All Elsewhere events
    → mobot_start_num + spawned events < floor_item_start_num
    → free_onetime (run events (table, mobot_start_num)).0 (run events (table, mobot_start_num)).1
      ≡ run events (table, mobot_start_num)
run-free_onetime table events none_yet away few =
    free_onetime_idle few (run events (table, mobot_start_num))
      (final table events none_yet away few)
