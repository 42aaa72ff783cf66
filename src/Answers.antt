-- ===== src/Answers.antt =====
-- The calls that wait at one end of a connection: a dictionary from serials to the channels of the
-- callers, which netx_client/src/client/impl_client.rs and netx_server/src/server/async_token.rs
-- keep alike. A oneshot channel is a number, and `rx` says whether its receiver still waits.
pub mod Timeouts
pub mod Once
use rust_netx.Prelude.{
  ℕ, Bool, true, false, Option, none, some, List, [], ◌∷◌, ◌++◌, ◌≡◌, ◌⊎◌, if◌then◌else◌, mem_key,
}
use rust_netx.Prelude.Dict.{Dict, lookup, remove}
use rust_netx.Wire.{Reader, Result, Error, err, serial_time_out}

-- A value that `tx.send` put into a channel whose receiver waits.
pub data Event : Type 0 where
  deliver : ℕ → Result Reader → Event

-- `tx.send`
abbrev pub sent : (ℕ → Bool) → ℕ → Result Reader → List Event
sent rx tx v = if rx tx then deliver tx v ∷ [] else []

abbrev pub Sent : Event → List Event → Type 0
Sent e [] = ⊥
Sent e (x ∷ xs) = (e ≡ x) ⊎ Sent e xs

-- A serial fails as timed out, if it is pending.
abbrev pub fail_found : (ℕ → Bool) → ℕ → Dict ℕ → Option ℕ → Dict ℕ × List Event
fail_found rx k d (some tx) = (remove k d, sent rx tx (err (serial_time_out k)))
fail_found rx k d none = (d, [])

unfoldable pub fail_one : (ℕ → Bool) → ℕ → Dict ℕ → Dict ℕ × List Event
fail_one rx k d = fail_found rx k d (lookup k d)

-- Every serial of the list fails in turn.
unfoldable pub fail_all : (ℕ → Bool) → List ℕ → Dict ℕ → Dict ℕ × List Event
fail_all rx [] d = (d, [])
fail_all rx (k ∷ ks) d =
    let failed = fail_one rx k d in
    let rest = fail_all rx ks failed.0 in (rest.0, failed.1 ++ rest.1)

-- An event tells a pending serial of the list that it has timed out.
abbrev pub IsTimeout : (ℕ → Bool) → List ℕ → Dict ℕ → Event → Type 0
IsTimeout rx ks d e =
    (k : ℕ) × (c : ℕ) × (mem_key k ks ≡ true)
    × (lookup k d ≡ some c)
    × (rx c ≡ true)
    × (e ≡ deliver c (err (serial_time_out k)))
