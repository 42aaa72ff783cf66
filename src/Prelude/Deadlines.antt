-- ===== src/Prelude/Deadlines.antt =====
-- A queue of keys with the time each was put in, and what is due in it. The list holds the deque
-- back first: its head is what `pop_back` takes, and `push_front` adds at its end.
use Prim.Native.Nat.{ℕ, ◌+◌, ◌-◌, ◌%◌, ◌^◌, ◌≤◌, ◌<◌}
use mathlib.Core.Path.{◌≡◌, refl}
use mathlib.Core.Bool.{Bool, true, false, ◌||◌}
use mathlib.Core.List.{List, [], ◌∷◌, ◌++◌}
use native.Mathlib.Omega.{arith}
use rust_netx.Prelude.Tests.{◌==◌, leb, le→leb, if◌then◌else◌}

-- Keys with their Instant, in milliseconds.
abbrev pub Deadlines : Type 0
Deadlines = List (ℕ × ℕ)

-- `at.elapsed().as_millis() as u32 >= out_time`
unfoldable pub is_due : ℕ → ℕ → ℕ → Bool
is_due now out_time at = leb out_time ((now - at) % 2 ^ 32)

-- `push_front((key, now))`
abbrev pub push_front : ℕ → ℕ → Deadlines → Deadlines
push_front key now q = q ++ ((key, now) ∷ [])

abbrev pub queued : ℕ → Deadlines → Bool
queued k [] = false
queued k ((j, at) ∷ q) = (j == k) || queued k q

-- The keys that are due, and the entries that are not.
abbrev pub due : ℕ → ℕ → Deadlines → List ℕ
due now out [] = []
due now out ((k, at) ∷ q) = if is_due now out at then k ∷ due now out q else due now out q

abbrev pub waiting : ℕ → ℕ → Deadlines → Deadlines
waiting now out [] = []
waiting now out ((k, at) ∷ q) =
    if is_due now out at then waiting now out q else (k, at) ∷ waiting now out q

-- Times do not fall along the queue, and lie between `lo` and `now`.
abbrev pub InOrder : ℕ → ℕ → Deadlines → Type 0
InOrder lo now [] = lo ≤ now
InOrder lo now ((k, at) ∷ q) = (lo ≤ at) × InOrder at now q

-- A key that is not in a queue is not its first, and not behind.
pub queued-behind :
    (k j at : ℕ) (q : Deadlines)
    → queued k ((j, at) ∷ q) ≡ false
    → ((j == k) ≡ false) × (queued k q ≡ false)
queued-behind k j at q m = (ground arith, ground arith)

pub queued-push_front :
    (k key now : ℕ) (q : Deadlines) → queued k (push_front key now q) ≡ (queued k q || (key == k))
queued-push_front k key now [] = ground arith
queued-push_front k key now ((j, at) ∷ q) = ground (arith, queued-push_front k key now q)

pub InOrder-le : (lo now : ℕ) (q : Deadlines) → InOrder lo now q → lo ≤ now
InOrder-le lo now [] h = h
InOrder-le lo now ((k, at) ∷ q) h = omega (arith, InOrder-le at now q h.1)

pub InOrder-later :
    (lo now now' : ℕ) (q : Deadlines) → now ≤ now' → InOrder lo now q → InOrder lo now' q
InOrder-later lo now now' [] le h = omega arith
InOrder-later lo now now' ((k, at) ∷ q) le h = (h.0, InOrder-later at now now' q le h.1)

pub InOrder-from :
    (lo lo' now : ℕ) (q : Deadlines) → lo ≤ lo' → InOrder lo' now q → InOrder lo now q
InOrder-from lo lo' now [] le h = omega arith
InOrder-from lo lo' now ((k, at) ∷ q) le h = (omega arith, h.1)

pub InOrder-push_front :
    (lo now now' key : ℕ) (q : Deadlines)
    → now ≤ now'
    → InOrder lo now q
    → InOrder lo now' (push_front key now' q)
InOrder-push_front lo now now' key [] le h = omega arith
InOrder-push_front lo now now' key ((k, at) ∷ q) le h =
    (h.0, InOrder-push_front at now now' key q le h.1)

-- Behind an entry that is not due nothing is due, while no time lies a whole u32 back.
pub not_due_later :
    (now out at : ℕ) (q : Deadlines)
    → now < at + 2 ^ 32
    → InOrder at now q
    → is_due now out at ≡ false
    → (due now out q ≡ []) × (waiting now out q ≡ q)
unfolding is_due
not_due_later now out at [] fresh h e = (refl, refl)
not_due_later now out at ((k, at') ∷ q) fresh h e =
    ground (arith, InOrder-le at' now q h.1, not_due_later now out at' q)

-- Once `out` ms have passed, an entry is due.
pub waited_is_due :
    (made d out at : ℕ)
    → at ≤ made
    → out ≤ d
    → made + d < at + 2 ^ 32
    → is_due (made + d) out at ≡ true
unfolding is_due
waited_is_due made d out at le le' fresh = le→leb out _ (omega arith)
