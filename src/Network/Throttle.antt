-- ===== src/Network/Throttle.antt =====
-- src/network/throttle.rs: how often an address has connected since the last reset.
use yuri.Base.{
  ℕ, suc, ◌+◌, ◌-◌, ◌<◌, ◌^◌, ◌≡◌, refl, Bool, Option, none, some, List, [], ◌∷◌, ap, ◌∙◌, arith,
  if◌then◌else◌, ltb, ◌==◌, u32, swap_bytes32,
}
use yuri.Base.Map.{lookup, insert, lookup-insert}

pub record ThrottleState : Type 0 where
  pub counts : List (ℕ × ℕ)

unfoldable pub new : ThrottleState
new = record { counts = [] }

abbrev pub count_or_zero : Option ℕ → ℕ
count_or_zero none = 0
count_or_zero (some n) = n

-- `*entry(ip).or_insert(0) += 1` on a u32.
unfoldable pub add_throttle : ThrottleState → ℕ → ThrottleState
add_throttle s ip_net =
    let ip = swap_bytes32 ip_net in
    record { counts = insert ip (u32 (count_or_zero (lookup ip s.counts) + 1)) s.counts }

unfoldable pub is_throttled : ThrottleState → ℕ → Bool
is_throttled s ip_net = ltb 0 (count_or_zero (lookup (swap_bytes32 ip_net) s.counts))

unfoldable pub remove_throttle : ThrottleState → ThrottleState
remove_throttle s = record { counts = [] }

pub data Event : Type 0 where
  adds : (ip_net : ℕ) → Event
  resets : Event

pub step : ThrottleState → Event → ThrottleState
step s (adds ip_net) = add_throttle s ip_net
step s resets = remove_throttle s

pub run : ThrottleState → List Event → ThrottleState
run s [] = s
run s (e ∷ es) = run (step s e) es

-- How often an address was added since the last reset, going on from a count.
abbrev pub added : ℕ → ℕ → List Event → ℕ
added ip n [] = n
added ip n (adds other ∷ es) =
    added ip (if swap_bytes32 other == swap_bytes32 ip then n + 1 else n) es
added ip n (resets ∷ es) = added ip 0 es

abbrev pub events : List Event → ℕ
events [] = 0
events (e ∷ es) = suc (events es)

abbrev count : ThrottleState → ℕ → ℕ
count s ip = count_or_zero (lookup (swap_bytes32 ip) s.counts)

step-count :
    (s : ThrottleState) (other ip : ℕ)
    → count s ip < 2 ^ 32 - 1
    → count (add_throttle s other) ip
      ≡ (if swap_bytes32 other == swap_bytes32 ip then count s ip + 1 else count s ip)
unfolding add_throttle
step-count s other ip h = ground (
  arith,
  lookup-insert (swap_bytes32 other) (swap_bytes32 ip)
      (u32 (count_or_zero (lookup (swap_bytes32 other) s.counts) + 1)) s.counts,
)

count-reset : (s : ThrottleState) (ip : ℕ) → count (remove_throttle s) ip ≡ 0
unfolding remove_throttle lookup
count-reset s ip = refl

run-count :
    (s : ThrottleState) (ip : ℕ) (es : List Event)
    → count s ip + events es < 2 ^ 32
    → count (run s es) ip ≡ added ip (count s ip) es
unfolding run step
run-count s ip [] h = refl
run-count s ip (adds other ∷ es) h =
    let now = step-count s other ip (omega arith) in
    run-count (add_throttle s other) ip es (ground (arith, now)) ∙ ap (λ n. added ip n es) now
run-count s ip (resets ∷ es) h =
    let zero_count = count-reset s ip in
    run-count (remove_throttle s) ip es (omega (arith, zero_count))
    ∙ ap (λ n. added ip n es) zero_count

-- After any history of less than 2 ^ 32 events an address is throttled exactly when it was added
-- since the last reset.
pub is_throttled-run :
    (es : List Event) (ip : ℕ)
    → events es < 2 ^ 32
    → is_throttled (run new es) ip ≡ ltb 0 (added ip 0 es)
unfolding is_throttled
is_throttled-run es ip h =
    let zero_count : count new ip ≡ 0 = unfold new lookup in refl in
    ap (ltb 0)
      (run-count new ip es (omega (arith, zero_count)) ∙ ap (λ n. added ip n es) zero_count)
