-- ===== src/Client/Pending.antt =====
-- A client of netx_client/src/client/impl_client.rs as a run of calls, answers, errors, checks,
-- connections and delays. A call is one operation up to its wait, and takes its serial from
-- `new_serial` as the call macros do.
pub mod Loop
pub mod Once
pub mod Served
pub mod Serials
pub mod Stuck
mod Tests
use rust_netx.Prelude.{
  ℕ, suc, ◌+◌, ◌<◌, ◌≤◌, ◌≡◌, Bool, true, false, Option, none, some, List, [], ◌∷◌, ◌++◌, ◌&&◌,
  ◌||◌, ◌==◌,
}
use rust_netx.Prelude.Dict.{Dict, lookup, insert}
use rust_netx.Prelude.Deadlines.{Deadlines}
use rust_netx.Wire.{Wire, Reader, Result, Error, ok}
use rust_netx.Answers.{Event}
use rust_netx.Client.{Client, new_serial}
use rust_netx.Client.Calls.{start_call, set_result, set_error, check}

-- A client with the number of channels made, the clock, and when each channel was made.
pub record Session : Type 0 where
  pub client : Client
  pub next_tx : ℕ
  pub clock : ℕ
  pub made : Dict ℕ

-- A call with its data for a serial, an answer from the peer, an error, the periodic check, a
-- connection or its end, and the passing of time.
pub data Op : Type 0 where
  calls : (ℕ → List ℕ) → Op
  answered : ℕ → Reader → Op
  fails : ℕ → Error → Op
  checks : Op
  peers : Option ℕ → Op
  waits : ℕ → Op

abbrev pub after_call : Session → Client → Result (Client × ℕ × List ℕ) → Session
after_call s c (ok (c', net, buff)) = record s {
  client = c';
  next_tx = suc s.next_tx;
  made = insert s.next_tx s.clock s.made;
}
after_call s c _ = record s { client = c }

-- One operation, with the receivers that wait at that time.
unfoldable pub step : Wire → Session → (ℕ → Bool) × Op → Session × List Event
unfolding new_serial
step w s (rx, calls buff) =
    let (serial, c) = new_serial s.client in
    (after_call s c (start_call w c serial s.next_tx s.clock (buff serial)), [])
step w s (rx, answered serial dr) =
    let r = set_result rx w s.client serial dr in (record s { client = r.0 }, r.1)
step w s (rx, fails serial e) =
    let r = set_error rx s.client serial e in (record s { client = r.0 }, r.1)
step w s (rx, checks) = let r = check rx s.clock s.client in (record s { client = r.0 }, r.1)
step w s (rx, peers p) = (record s { client = record s.client { net = p } }, [])
step w s (rx, waits d) = (record s { clock = s.clock + d }, [])

unfoldable pub run : Wire → Session → List ((ℕ → Bool) × Op) → Session
unfolding step
run w s [] = s
run w s (op ∷ ops) = run w (step w s op).0 ops

-- An entry of a queue.
abbrev pub has : ℕ → ℕ → Deadlines → Bool
has k at [] = false
has k at ((j, b) ∷ q) = ((j == k) && (b == at)) || has k at q

-- Pending calls and entries have serials below the next one, and the entry of a pending call has
-- the time at which its channel was made.
pub record Dated (s : Session) : Type 0 where
  pub fresh : (k tx : ℕ) → lookup k s.client.result_dict ≡ some tx → k < s.client.serial_atomic
  pub fresh_entry : (k at : ℕ) → has k at s.client.queue ≡ true → k < s.client.serial_atomic
  pub dated :
      (k at tx : ℕ)
      → has k at s.client.queue ≡ true
      → lookup k s.client.result_dict ≡ some tx
      → lookup tx s.made ≡ some at
  pub issued : (tx at : ℕ) → lookup tx s.made ≡ some at → (tx < s.next_tx) × (at ≤ s.clock)
