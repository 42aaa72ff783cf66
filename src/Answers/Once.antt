-- ===== src/Answers/Once.antt =====
-- At most one answer for each channel: the invariant, and the steps that keep it.
use rust_netx.Prelude.{
  ℕ, suc, ◌<◌, ◌≡◌, refl, true, false, some, List, [], ◌∷◌, ◌++◌, map, arith, ◌||◌, mem_key,
}
use rust_netx.Prelude.Dict.{Dict, lookup, insert, remove, lookup-insert, lookup-remove}
use rust_netx.Answers.{Event, deliver}

-- The channels of a list of events.
abbrev pub channels : List Event → List ℕ
channels = map λ e. elim e [ deliver c v ↦ c ]

abbrev pub Distinct : List ℕ → Type 0
Distinct [] = Unit {0}
Distinct (k ∷ ks) = (mem_key k ks ≡ false) × Distinct ks

-- Of the channels below `next_tx`, those of pending calls are apart from one another and have no
-- answer yet, and no channel of `done` has had two.
pub record IsOnce (next_tx : ℕ) (d : Dict ℕ) (done : List ℕ) : Type 0 where
  pub issued : (k c : ℕ) → lookup k d ≡ some c → c < next_tx
  pub apart : (j k c : ℕ) → lookup j d ≡ some c → lookup k d ≡ some c → j ≡ k
  pub open_calls : (k c : ℕ) → lookup k d ≡ some c → mem_key c done ≡ false
  pub done_issued : (c : ℕ) → mem_key c done ≡ true → c < next_tx
  pub once : Distinct done

mem_key-append : (k : ℕ) (xs ys : List ℕ) → mem_key k (xs ++ ys) ≡ (mem_key k xs || mem_key k ys)
mem_key-append k [] ys = refl
mem_key-append k (x ∷ xs) ys = ground (arith, mem_key-append k xs ys)

Distinct-append :
    (xs : List ℕ) (c : ℕ) → mem_key c xs ≡ false → Distinct xs → Distinct (xs ++ (c ∷ []))
Distinct-append [] c m d = ground arith
Distinct-append (x ∷ xs) c m d = ground (arith, mem_key-append x xs (c ∷ []), Distinct-append xs c)

-- A pending call ends, and its channel is answered or dropped.
pub remove-IsOnce :
    (next : ℕ) (d : Dict ℕ) (done : List ℕ) (k : ℕ)
    → IsOnce next d done
    → IsOnce next (remove k d) done
remove-IsOnce next d done k h = record {
  issued = λ j c e. h.issued j c (ground (arith, lookup-remove k j d));
  apart = λ i j c e e'.
      h.apart i j c (ground (arith, lookup-remove k i d)) (ground (arith, lookup-remove k j d));
  open_calls = λ j c e. h.open_calls j c (ground (arith, lookup-remove k j d));
  done_issued = h.done_issued;
  once = h.once;
}

pub answered-IsOnce :
    (next : ℕ) (d : Dict ℕ) (done : List ℕ) (k c : ℕ)
    → lookup k d ≡ some c
    → IsOnce next d done
    → IsOnce next (remove k d) (done ++ (c ∷ []))
answered-IsOnce next d done k c s h = record {
  issued = λ j c' e. h.issued j c' (ground (arith, lookup-remove k j d));
  apart = λ i j c' e e'.
      h.apart i j c' (ground (arith, lookup-remove k i d)) (ground (arith, lookup-remove k j d));
  open_calls = λ j c' e.
      let e' : lookup j d ≡ some c' = ground (arith, lookup-remove k j d) in
      ground (
        arith,
        lookup-remove k j d,
        mem_key-append c' done (c ∷ []),
        h.open_calls j c' e',
        h.apart j k c',
      );
  done_issued =
      λ c' m. ground (arith, mem_key-append c' done (c ∷ []), h.done_issued c', h.issued k c s);
  once = Distinct-append done c (h.open_calls k c s) h.once;
}

pub channels-append : (xs ys : List Event) → channels (xs ++ ys) ≡ channels xs ++ channels ys
channels-append [] ys = refl
channels-append (x ∷ xs) ys = rw (channels-append xs ys)

-- A new call takes the channel `tx`, which none before it had.
pub insert-IsOnce :
    (d : Dict ℕ) (k tx : ℕ) (done : List ℕ)
    → IsOnce tx d done
    → IsOnce (suc tx) (insert k tx d) done
insert-IsOnce d k tx done h =
    let at = λ (j : ℕ). lookup-insert k j tx d in
    record {
      issued = λ j c s. ground (arith, at j, h.issued j c);
      apart = λ i j c s s'. ground (arith, at i, at j, h.issued i c, h.issued j c, h.apart i j c);
      open_calls = λ j c s. ground (arith, at j, h.open_calls j c, h.done_issued c);
      done_issued = λ c m. ground (arith, h.done_issued c m);
      once = h.once;
    }
