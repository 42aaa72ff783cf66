-- ===== src/Link/System/Grows.antt =====
-- The calls of netx_client/src/client/impl_client.rs made so far, with one more, and what is said of
-- the ones before it.
use rust_netx.Prelude.{ℕ, ◌≡◌, ◌⊎◌, inl, inr, none, some, arith, Bool-cases, ◌==◌}
use rust_netx.Prelude.Dict.{Dict, lookup, insert, lookup-insert}
use rust_netx.Wire.{Wire, Reader, Result}
use rust_netx.RetResult.{RetResult}
use rust_netx.Server
use rust_netx.Link.System.{Asked}
use rust_netx.Link.System.Invariant.{IsCall, IsAnswer, IsTold}

-- A new call takes a serial that no call has.
abbrev pub Grows : Dict Asked → Dict Asked → Type 0
Grows asked asked' = (k : ℕ) (q : Asked) → lookup k asked ≡ some q → lookup k asked' ≡ some q

pub insert-Grows :
    (asked : Dict Asked) (k : ℕ) (q : Asked)
    → lookup k asked ≡ none
    → Grows asked (insert k q asked)
insert-Grows asked k q h j p e = ground (arith, lookup-insert k j q asked)

pub IsCall-Grows :
    (asked asked' : Dict Asked) (p : ℕ × Asked)
    → Grows asked asked'
    → IsCall asked p
    → IsCall asked' p
IsCall-Grows asked asked' p h c = record {
  made = h p.0 p.1 c.made;
  answers = c.answers;
  fits = c.fits;
}

-- What the calls are with one more.
pub insert_cases :
    (j k : ℕ) (p q : Asked) (asked : Dict Asked)
    → lookup j (insert k q asked) ≡ some p
    → ((k ≡ j) × (q ≡ p)) ⊎ (lookup j asked ≡ some p)
insert_cases j k p q asked h = elim (Bool-cases (k == j)) [
  | inl e ↦ inl (ground (arith, e), cc (h, e, lookup-insert k j q asked))
  | inr e ↦ inr (cc (h, e, lookup-insert k j q asked))
]

module _ (w : Wire) (Executes : Server.Job → RetResult → Type 0) where
  pub IsAnswer-Grows :
      (asked asked' : Dict Asked) (a : ℕ × RetResult)
      → Grows asked asked'
      → IsAnswer w Executes asked a
      → IsAnswer w Executes asked' a
  IsAnswer-Grows asked asked' a h x = record {
    question = x.question;
    call = IsCall-Grows asked asked' (a.0, x.question) h x.call;
    result = x.result;
  }

  pub IsTold-Grows :
      (asked asked' : Dict Asked) (tx : ℕ) (v : Result Reader)
      → Grows asked asked'
      → IsTold w Executes asked tx v
      → IsTold w Executes asked' tx v
  IsTold-Grows asked asked' tx v h x = record {
    serial = x.serial;
    question = x.question;
    call = IsCall-Grows asked asked' (x.serial, x.question) h x.call;
    channel = x.channel;
    value = x.value;
  }
