-- ===== src/Network/Ddos.antt =====
-- src/network/ddos.rs: the table of locked addresses. The clock `gettick` is C code, and its value
-- an argument. Addresses arrive in network byte order.
use yuri.Base.{
  ℕ, ◌*◌, ◌≡◌, refl, Bool, true, false, Option, none, some, List, [], ◌∷◌, arith, if◌then◌else◌,
  leb, ◌==◌, wrapping_sub32, swap_bytes32, length, Option-cases, inl, inr,
}
use yuri.Base.Map.{
  lookup, insert, retain, Distinct, lookup-insert, lookup-retain, insert-Distinct, retain-Distinct,
}

abbrev pub ddos_interval : ℕ
ddos_interval = 3 * 1000

abbrev pub ddos_autoreset : ℕ
ddos_autoreset = 10 * 60 * 1000

pub record ConnectEntry : Type 0 where
  pub tick : ℕ
  pub ddos : Bool

-- The two intervals of the state are never changed: they are the constants.
pub record DdosState : Type 0 where
  pub entries : List (ℕ × ConnectEntry)

unfoldable pub new : DdosState
new = record { entries = [] }

-- `entry(ip).or_insert(..)`, then both fields are set.
unfoldable pub add_ip_lockout : DdosState → ℕ → ℕ → DdosState
add_ip_lockout s tick ip_net = record {
  entries = insert (swap_bytes32 ip_net) (record { tick = tick; ddos = true }) s.entries;
}

abbrev is_ddos : Option ConnectEntry → Bool
is_ddos none = false
is_ddos (some e) = e.ddos

unfoldable pub is_ip_locked : DdosState → ℕ → Bool
is_ip_locked s ip_net = is_ddos (lookup (swap_bytes32 ip_net) s.entries)

-- Whether an entry is kept at `tick`. The age wraps.
unfoldable pub fresh : ℕ → ConnectEntry → Bool
fresh tick entry =
    let age = wrapping_sub32 tick entry.tick in
    if entry.ddos then leb age ddos_autoreset else leb age (ddos_interval * 3)

unfoldable pub connect_check_clear : DdosState → ℕ → DdosState × ℕ
unfolding fresh
connect_check_clear s tick =
    let kept = retain (fresh tick) s.entries in (record { entries = kept }, length kept)

-- What the server does with the table.
pub data Event : Type 0 where
  locks : (tick ip_net : ℕ) → Event
  clears : (tick : ℕ) → Event

pub step : DdosState → Event → DdosState
step s (locks tick ip_net) = add_ip_lockout s tick ip_net
step s (clears tick) = (connect_check_clear s tick).0

pub run : DdosState → List Event → DdosState
run s [] = s
run s (e ∷ es) = run (step s e) es

-- An abstract view of one address: when it was locked last, if that has not been forgotten.
abbrev pub view_step : ℕ → Option ℕ → Event → Option ℕ
view_step ip locked (locks tick other) =
    if swap_bytes32 other == swap_bytes32 ip then some tick else locked
view_step ip none (clears tick) = none
view_step ip (some since) (clears tick) =
    if leb (wrapping_sub32 tick since) ddos_autoreset then some since else none

abbrev pub view_run : ℕ → Option ℕ → List Event → Option ℕ
view_run ip locked [] = locked
view_run ip locked (e ∷ es) = view_run ip (view_step ip locked e) es

abbrev pub is_some : Option ℕ → Bool
is_some none = false
is_some (some t) = true

-- The entry of an address is that of its view.
abbrev entry_of : Option ℕ → Option ConnectEntry
entry_of none = none
entry_of (some since) = some (record { tick = since; ddos = true })

step-view :
    (s : DdosState) (ip : ℕ) (locked : Option ℕ) (e : Event)
    → Distinct s.entries
    → lookup (swap_bytes32 ip) s.entries ≡ entry_of locked
    → Distinct (step s e).entries
      × (lookup (swap_bytes32 ip) (step s e).entries ≡ entry_of (view_step ip locked e))
unfolding step add_ip_lockout
step-view s ip locked (locks tick other) d h = (
  insert-Distinct (swap_bytes32 other) (record { tick = tick; ddos = true }) s.entries d,
  ground (
    arith,
    lookup-insert (swap_bytes32 other) (swap_bytes32 ip) (record { tick = tick; ddos = true })
        s.entries,
  ),
)
step-view s ip none (clears tick) d h =
    unfold connect_check_clear fresh in
    (
      retain-Distinct (fresh tick) s.entries d,
      ground (arith, lookup-retain (fresh tick) (swap_bytes32 ip) s.entries d),
    )
step-view s ip (some since) (clears tick) d h =
    unfold connect_check_clear fresh in
    (
      retain-Distinct (fresh tick) s.entries d,
      ground (arith, lookup-retain (fresh tick) (swap_bytes32 ip) s.entries d),
    )

run-view :
    (s : DdosState) (ip : ℕ) (locked : Option ℕ) (es : List Event)
    → Distinct s.entries
    → lookup (swap_bytes32 ip) s.entries ≡ entry_of locked
    → lookup (swap_bytes32 ip) (run s es).entries ≡ entry_of (view_run ip locked es)
unfolding run
run-view s ip locked [] d h = h
run-view s ip locked (e ∷ es) d h =
    let now = step-view s ip locked e d h in
    run-view (step s e) ip (view_step ip locked e) es now.0 now.1

-- After any history of locks and periodic clears an address is locked exactly when it was locked
-- and no clear since has found its last lock more than ten minutes old.
pub is_ip_locked-run :
    (es : List Event) (ip : ℕ) → is_ip_locked (run new es) ip ≡ is_some (view_run ip none es)
unfolding is_ip_locked
is_ip_locked-run es ip =
    let e = run-view new ip none es (unfold new in tt) (unfold new lookup in refl) in
    elim (Option-cases (view_run ip none es)) [
      | inl h ↦ ground (arith, e, h)
      | inr (t, h) ↦ ground (arith, e, h)
    ]
