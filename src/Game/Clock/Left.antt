-- ===== src/Game/Clock/Left.antt =====
-- A timer of a player that stays when the others are removed.
use yuri.Base.{
  ℕ, ◌+◌, ◌<◌, ◌≡◌, refl, arith, Bool, true, false, ◌||◌, List, [], ◌∷◌, if◌then◌else◌, ◌==◌, All,
  ==_refl, ◌⊎◌, Bool-cases, inl, inr,
}
use yuri.Base.Int.{ℤ, pos, ltb_ℤ}
use yuri.Game.Clock.Timers.{
  Kind, timer, pongtimer, savetimer, afktimer, duratimer, secondduratimer, thirdduratimer,
  fourthduratimer, fifthduratimer, scripttimer, castusetimer, code, Entry, Clock, removed,
  start_one, pc_starttimer, stop_one, stop_each, stopped, pc_stoptimer,
}

-- Whether a timer is registered.
unfoldable pub runs : ℕ → List Entry → Bool
runs id [] = false
runs id (e ∷ wheel) = e.id == id || runs id wheel

runs-removed :
    (id other : ℕ) (wheel : List Entry)
    → (id == other) ≡ false
    → runs id wheel ≡ true
    → runs id (removed other wheel) ≡ true
unfolding runs removed
runs-removed id other [] h r = r
runs-removed id other (e ∷ wheel) h r = ground (arith, h, r, runs-removed id other wheel h)

-- The timer runs, and the fields of the others hold other ids.
abbrev pub Apart : ℕ → Clock → Type 0
Apart id c =
    (runs id c.wheel ≡ true)
    × ((k : Kind) → (code k == code castusetimer) ≡ false → (id == c.held k) ≡ false)

cleared-apart :
    (id other : ℕ) (same : Bool)
    → (id == 0) ≡ false
    → (id == other) ≡ false
    → (id == (if same then 0 else other)) ≡ false
cleared-apart id other true used apart = used
cleared-apart id other false used apart = apart

stop_one-Apart :
    (kind : Kind) (id : ℕ) (c : Clock)
    → (id == 0) ≡ false
    → (code kind == code castusetimer) ≡ false
    → Apart id c
    → Apart id (stop_one kind c)
unfolding stop_one
stop_one-Apart kind id c used other apart = elim (Bool-cases (c.held kind == 0)) [
  | inl off ↦ rw (stop_one, off) apart
  | inr on ↦
      rw (stop_one, on)
        (
          runs-removed id (c.held kind) c.wheel (apart.1 kind other) apart.0,
          λ k h. cleared-apart id (c.held k) (code k == code kind) used (apart.1 k h),
        )
]

stop_each-Apart :
    (kinds : List Kind) (id : ℕ) (c : Clock)
    → (id == 0) ≡ false
    → All (λ k. (code k == code castusetimer) ≡ false) kinds
    → Apart id c
    → Apart id (stop_each kinds c)
unfolding stop_each
stop_each-Apart [] id c used others apart = apart
stop_each-Apart (kind ∷ rest) id c used others apart =
    stop_each-Apart rest id (stop_one kind c) used others.1
      (stop_one-Apart kind id c used others.0 apart)

module _ (fresh : ℕ → ℕ) (used : (i : ℕ) → (fresh i == 0) ≡ false)
    (distinct : (i j : ℕ) → (i == j) ≡ false → (fresh i == fresh j) ≡ false) where
  -- A field is empty or holds an id that was given.
  abbrev Given : ℕ → ℕ → Type 0
  Given n v = (v ≡ 0) ⊎ ((i : ℕ) × (i < n) × (v ≡ fresh i))

  abbrev AllGiven : Clock → Type 0
  AllGiven c = (k : Kind) → Given c.given (c.held k)

  put_Given : (same : Bool) (v n : ℕ) → Given n v → Given (n + 1) (if same then fresh n else v)
  put_Given true v n h = inr (n, omega arith, refl)
  put_Given false v n (inl z) = inl z
  put_Given false v n (inr (i, h, e)) = inr (i, omega (arith, h), e)

  start_one-AllGiven :
      (kind : Kind) (interval : ℕ) (c : Clock)
      → AllGiven c
      → AllGiven (start_one fresh kind interval c)
  unfolding start_one
  start_one-AllGiven kind interval c below k =
      put_Given (code k == code kind) (c.held k) c.given (below k)

  if-AllGiven : (b : Bool) (c d : Clock) → AllGiven c → AllGiven d → AllGiven (if b then c else d)
  if-AllGiven true c d hc hd = hc
  if-AllGiven false c d hc hd = hd

  other_id : (v n : ℕ) → Given n v → (fresh n == v) ≡ false
  other_id v n (inl z) = rw z (used n)
  other_id v n (inr (i, h, e)) = rw e (distinct n i (ground (arith, h)))

  start_one-Apart :
      (c : Clock) → AllGiven c → Apart (fresh c.given) (start_one fresh castusetimer 250 c)
  unfolding start_one runs
  start_one-Apart c below =
      (rw (==_refl (fresh c.given)) refl, λ k h. rw h (other_id (c.held k) c.given (below k)))

  -- The timers before the last one.
  first_ones : ℤ → Clock → Clock
  first_ones gm_level c =
      let c1 = start_one fresh timer 1000 c in
      let c2 = start_one fresh pongtimer 30000 c1 in
      let c3 = start_one fresh savetimer 60000 c2 in
      let c4 = if ltb_ℤ gm_level (pos 50) then start_one fresh afktimer 10000 c3 else c3 in
      let c5 = start_one fresh duratimer 1000 c4 in
      let c6 = start_one fresh secondduratimer 250 c5 in
      let c7 = start_one fresh thirdduratimer 500 c6 in
      let c8 = start_one fresh fourthduratimer 1500 c7 in
      let c9 = start_one fresh fifthduratimer 3000 c8 in start_one fresh scripttimer 500 c9

  first_ones-AllGiven : (gm_level : ℤ) (c : Clock) → AllGiven c → AllGiven (first_ones gm_level c)
  unfolding first_ones
  first_ones-AllGiven gm_level c h =
      let c1 = start_one fresh timer 1000 c in
      let c2 = start_one fresh pongtimer 30000 c1 in
      let c3 = start_one fresh savetimer 60000 c2 in
      let h3 =
        start_one-AllGiven savetimer 60000 c2
          (start_one-AllGiven pongtimer 30000 c1 (start_one-AllGiven timer 1000 c h)) in
      let h4 =
        if-AllGiven (ltb_ℤ gm_level (pos 50)) _ c3 (start_one-AllGiven afktimer 10000 c3 h3) h3 in
      start_one-AllGiven scripttimer 500 _ (
        start_one-AllGiven fifthduratimer 3000 _ (
          start_one-AllGiven fourthduratimer 1500 _ (
            start_one-AllGiven thirdduratimer 500 _
              (start_one-AllGiven secondduratimer 250 _ (start_one-AllGiven duratimer 1000 _ h4)))))

  starttimer-Apart :
      (gm_level : ℤ) (c : Clock)
      → AllGiven c
      → Apart ((pc_starttimer fresh gm_level c).held castusetimer) (pc_starttimer fresh gm_level c)
  unfolding pc_starttimer first_ones start_one
  starttimer-Apart gm_level c h =
      start_one-Apart (first_ones gm_level c) (first_ones-AllGiven gm_level c h)

-- A player whose fields hold no ids starts the timers, and when the timers are stopped the one for the
-- use of spells still runs, whatever the player's level as a game master. The ids that are given are not 0
-- and differ.
pub pc_stoptimer-pc_starttimer :
    (fresh : ℕ → ℕ) (gm_level : ℤ)
    → ((i : ℕ) → (fresh i == 0) ≡ false)
    → ((i j : ℕ) → (i == j) ≡ false → (fresh i == fresh j) ≡ false)
    → runs
        ((pc_starttimer fresh gm_level (record { held = λ k. 0; wheel = []; given = 0 })).held
          castusetimer)
        (pc_stoptimer
          (pc_starttimer fresh gm_level (record { held = λ k. 0; wheel = []; given = 0 }))).wheel
      ≡ true
unfolding pc_stoptimer pc_starttimer start_one
pc_stoptimer-pc_starttimer fresh gm_level used distinct =
    let c = pc_starttimer fresh gm_level (record { held = λ k. 0; wheel = []; given = 0 }) in
    (stop_each-Apart stopped (c.held castusetimer) c (used _)
      (refl, (refl, (refl, (refl, (refl, (refl, (refl, (refl, (refl, (refl, (refl, tt)))))))))))
      (starttimer-Apart fresh used distinct gm_level
        (record { held = λ k. 0; wheel = []; given = 0 }) (λ k. inl refl))).0
