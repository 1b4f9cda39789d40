-- ===== src/Session/Progress.antt =====
-- The parse loop ends, and the shutdown callback is called once.
use yuri.Base.{
  ℕ, zero, suc, ◌+◌, ◌<◌, ◌≤◌, ◌≡◌, ◌≢◌, ◌⊎◌, refl, true, false, some, arith, ◌==◌, if◌then◌else◌,
  Bool-cases, inl, inr,
}
use yuri.Session.{Session}
use yuri.Session.Read.{available}
use yuri.Session.Io.{parse_once, parse_loop, claim_shutdown}

module _ (parse : Session → Session × ℕ) where
  -- The loop goes on only if the parser consumed bytes.
  parse_once-progress :
      (s : Session) → (parse_once parse s).1 ≡ true → available (parse_once parse s).0 < available s
  unfolding parse_once
  parse_once-progress s h = ground arith

  -- Why the loop ended at `t`: nothing is unread, or `t` is what a call left that asked for more
  -- data, closed the session, or consumed nothing.
  abbrev pub Ended : Session → Type 0
  Ended t =
      (available t ≡ 0)
      ⊎ ((s : Session) × (t ≡ (parse s).0)
          × (((parse s).1 ≡ 2) ⊎ (t.eof ≢ 0) ⊎ (available s ≤ available t)))

  parse_once-Ended : (s : Session) → (parse_once parse s).1 ≡ false → Ended (parse_once parse s).0
  unfolding parse_once
  parse_once-Ended s h = inr (s, ground arith, ground arith)

  -- With more fuel than unread bytes the loop returns a session that ends it, and what holds
  -- before and is kept by the parser holds after.
  pub parse_loop_total :
      (P : Session → Type 0)
      → ((s : Session) → P s → P (parse s).0)
      → (fuel : ℕ) (s : Session) → available s < fuel
      → P s
      → (t : Session) × (parse_loop parse fuel s ≡ some t) × Ended t × P t
  unfolding parse_loop
  parse_loop_total P keep zero s h p = absurd (omega arith)
  parse_loop_total P keep (suc fuel) s h p = elim (Bool-cases (available s == 0)) [
    | inl done ↦ (s, rw done, inl (ground arith), p)
    | inr more ↦ elim (Bool-cases (parse_once parse s).1) [
      | inl goes ↦
          rw (more, goes)
            (parse_loop_total P keep fuel (parse_once parse s).0
              (omega (arith, parse_once-progress s goes)) (unfold parse_once in keep s p))
      | inr ends ↦ (
        (parse_once parse s).0,
        rw (more, ends),
        parse_once-Ended s ends,
        unfold parse_once in keep s p,
      )
    ]
  ]

-- How many of `n` callers in a row make the shutdown call.
unfoldable pub shutdown_calls : ℕ → Session → ℕ
unfolding claim_shutdown
shutdown_calls zero s = 0
shutdown_calls (suc n) s =
    let (s', mine) = claim_shutdown s in (if mine then 1 else 0) + shutdown_calls n s'

shutdown_calls-called : (n : ℕ) (s : Session) → s.shutdown_called ≡ true → shutdown_calls n s ≡ 0
unfolding shutdown_calls
shutdown_calls-called zero s h = refl
shutdown_calls-called (suc n) s h = ground (arith, shutdown_calls-called n s h)

-- However many callers race to close a session, the first alone calls the shutdown callback.
pub shutdown_calls_once :
    (n : ℕ) (s : Session) → s.shutdown_called ≡ false → shutdown_calls (suc n) s ≡ 1
unfolding shutdown_calls
shutdown_calls_once n s h =
    ground (arith, shutdown_calls-called n (record s { shutdown_called = true }) refl)
