-- ===== src/Game/Ai/Chosen.antt =====
-- Whom a search for a target can choose.
use yuri.Base.{
  ℕ, ◌≡◌, ◌⊎◌, refl, true, false, not, ◌&&◌, ◌||◌, List, [], ◌∷◌, Option, if◌then◌else◌, leb, ◌==◌,
  Bool, Bool-cases, All, ==_refl, ◌%◌, inl, inr,
}
use yuri.Base.Int.{pos, ltb_ℤ}
use yuri.Game.Walk.View.{same_int}
use yuri.Game.Ai.Brain.{Brain}
use yuri.Game.Ai.Hiding.{last_way, visible_to, sees-invisible}
use yuri.Game.Ai.Target.{Sighted, invisible, sees, seeinvis_of, mob_find_target, search_area}

-- The player lives, the last way to hide of his slots is none or one that the monster sees through,
-- and he is no game master.
abbrev pub fair : (ℕ → Option (List ℕ)) → Brain → Sighted → Bool
fair name b sd =
    visible_to (seeinvis_of b.data_) (last_way name sd.dura_aether)
    && not (same_int sd.state (pos 1))
    && ltb_ℤ sd.gm_level (pos 50)

-- A list has a player with an id that is fair.
unfoldable pub some_fair : (ℕ → Option (List ℕ)) → Brain → ℕ → List Sighted → Bool
some_fair name b id [] = false
some_fair name b id (sd ∷ rest) = sd.id == id && fair name b sd || some_fair name b id rest

or_right : (a : Bool) {b : Bool} → b ≡ true → (a || b) ≡ true
or_right true h = refl
or_right false h = h

seen_by :
    (name : ℕ → Option (List ℕ)) (sd : Sighted) (b : Brain)
    → sees (seeinvis_of b.data_) (invisible name sd.dura_aether 0)
      ≡ visible_to (seeinvis_of b.data_) (last_way name sd.dura_aether)
seen_by name sd b = sees-invisible name (seeinvis_of b.data_) sd.dura_aether

-- One player changes the target at most, and only to himself, if he is fair.
find-fair :
    (name : ℕ → Option (List ℕ)) (sd : Sighted) (b : Brain)
    → (mob_find_target name sd b ≡ b)
      ⊎ ((mob_find_target name sd b ≡ record b { target = sd.id }) × (fair name b sd ≡ true))
unfolding mob_find_target
find-fair name sd b =
    elim (Bool-cases (visible_to (seeinvis_of b.data_) (last_way name sd.dura_aether))) [
      | inr hid ↦ inl (rw (seen_by name sd b, hid) refl)
      | inl seen ↦ elim (Bool-cases (same_int sd.state (pos 1))) [
        | inl dead ↦ inl (rw (seen_by name sd b, seen, dead) refl)
        | inr alive ↦ elim (Bool-cases (not (b.confused == 0) && b.confused_target == sd.id)) [
          | inl c ↦ inl (rw (seen_by name sd b, seen, alive, c) refl)
          | inr c ↦ elim (Bool-cases (ltb_ℤ sd.gm_level (pos 50))) [
            | inl low ↦ elim (Bool-cases (not (b.target == 0))) [
              | inl has ↦ elim (Bool-cases (leb (sd.random % 1000) 499)) [
                | inl r ↦ inr (
                  rw (seen_by name sd b, seen, alive, c, has, low, r) refl,
                  rw (seen, alive, low) refl,
                )
                | inr r ↦ inl (rw (seen_by name sd b, seen, alive, c, has, r) refl)
              ]
              | inr lone ↦ inr (
                rw (seen_by name sd b, seen, alive, c, lone, low) refl,
                rw (seen, alive, low) refl,
              )
            ]
            | inr high ↦ inl (elim (Bool-cases (not (b.target == 0))) [
              | inl has ↦ elim (Bool-cases (leb (sd.random % 1000) 499)) [
                | inl r ↦ rw (seen_by name sd b, seen, alive, c, has, high, r) refl
                | inr r ↦ rw (seen_by name sd b, seen, alive, c, has, r) refl
              ]
              | inr lone ↦ rw (seen_by name sd b, seen, alive, c, lone, high) refl
            ])
          ]
        ]
      ]
    ]

-- A monster without a target and not confused takes a fair player, and leaves another.
find-idle :
    (name : ℕ → Option (List ℕ)) (sd : Sighted) (b : Brain)
    → (b.target == 0) ≡ true
    → (b.confused == 0) ≡ true
    → mob_find_target name sd b ≡ (if fair name b sd then record b { target = sd.id } else b)
unfolding mob_find_target
find-idle name sd b idle clear =
    elim (Bool-cases (visible_to (seeinvis_of b.data_) (last_way name sd.dura_aether))) [
      | inr hid ↦ rw (seen_by name sd b, hid) refl
      | inl seen ↦ elim (Bool-cases (same_int sd.state (pos 1))) [
        | inl dead ↦ rw (seen_by name sd b, seen, dead) refl
        | inr alive ↦ rw (seen_by name sd b, seen, alive, clear, idle) refl
      ]
    ]

-- A search, from any state: it changes the target at most, and only to a fair player of the list.
search-fair :
    (name : ℕ → Option (List ℕ)) (sds : List Sighted) (b : Brain)
    → (search_area name sds b ≡ b)
      ⊎ ((id : ℕ) × (search_area name sds b ≡ record b { target = id })
          × (some_fair name b id sds ≡ true))
unfolding search_area some_fair
search-fair name [] b = inl refl
search-fair name (sd ∷ rest) b = elim (find-fair name sd b) [
  | inl same ↦ rw same (elim (search-fair name rest b) [
    | inl e ↦ inl e
    | inr (id, e, f) ↦ inr (id, e, or_right (sd.id == id && fair name b sd) f)
  ])
  | inr (e1, good) ↦ rw e1 (elim (search-fair name rest (record b { target = sd.id })) [
    | inl e ↦ inr (sd.id, e, rw (==_refl sd.id, good) refl)
    | inr (id, e, f) ↦ inr (id, e, or_right (sd.id == id && fair name b sd) f)
  ])
]

-- The search for a target, of a monster that has none and is not confused, over the players of the area
-- in any order and whatever the random numbers are: either nobody there is fair game, and nothing
-- changes; or the target, and nothing else, becomes a player of the area who is. Fair game is who is
-- alive, is no game master of level 50 or more, and is not hidden from the monster. Of the running spells
-- that hide a player, by the names sneak, cloak and hide, only the one in the last slot counts: a monster
-- sees through sneak with a `seeinvis` of 1, 3 or 5, through cloak with 2, 3 or 5, and through hide with 4
-- or 5.
pub search_area_lem :
    (name : ℕ → Option (List ℕ)) (sds : List Sighted) (b : Brain)
    → (b.target == 0) ≡ true
    → (b.confused == 0) ≡ true
    → ((search_area name sds b ≡ b) × All (λ sd. fair name b sd ≡ false) sds)
      ⊎ ((id : ℕ) × (search_area name sds b ≡ record b { target = id })
          × (some_fair name b id sds ≡ true))
unfolding search_area some_fair
search_area_lem name [] b idle clear = inl (refl, tt)
search_area_lem name (sd ∷ rest) b idle clear = elim (Bool-cases (fair name b sd)) [
  | inl good ↦
      rw (find-idle name sd b idle clear, good)
        (elim (search-fair name rest (record b { target = sd.id })) [
          | inl e ↦ inr (sd.id, e, rw (==_refl sd.id) refl)
          | inr (id, e, f) ↦ inr (id, e, or_right (sd.id == id && true) f)
        ])
  | inr bad ↦
      rw (find-idle name sd b idle clear, bad)
        (elim (search_area_lem name rest b idle clear) [
          | inl (e, all) ↦ inl (e, (refl, all))
          | inr (id, e, f) ↦ inr (id, e, or_right (sd.id == id && false) f)
        ])
]
