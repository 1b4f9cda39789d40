-- ===== src/Game/Ai/Window.antt =====
-- The hours of a monster, as an interval of the clock.
use yuri.Base.{ℕ, ◌+◌, ◌-◌, ◌%◌, ◌<◌, ◌≡◌, arith, leb, if◌then◌else◌}
use yuri.Base.Int.{pos}
use yuri.Game.Ai.Brain.{in_spawn_window}

mod24 : (a b : ℕ) → a < 24 → b < 24 → ((a + 24 - b) % 24 ≡ (if leb b a then a - b else a + 24 - b))
mod24 a b ha hb = ground arith

-- The hour is in the window of a monster just if, from the hour where the window begins, the clock comes
-- to it no later than to the hour where the window ends. The three are hours of a day.
pub in_spawn_window_lem :
    (s e ct : ℕ)
    → s < 24
    → e < 24
    → ct < 24
    → in_spawn_window (pos s) (pos e) (pos ct) ≡ leb ((ct + 24 - s) % 24) ((e + 24 - s) % 24)
unfolding in_spawn_window
in_spawn_window_lem s e ct hs he hc = ground (arith, mod24 ct s hc hs, mod24 e s he hs)
