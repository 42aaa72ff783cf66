-- ===== src/Link/System/Calls.antt =====
-- What a caller does first to the system: it draws a serial, and later registers its call under it.
use rust_netx.Prelude.{
  ℕ, suc, ◌+◌, ◌<◌, ◌≤◌, ◌^◌, ◌%◌, ◌≡◌, sym, ap, ◌∙◌, inl, inr, false, none, some, List, [], ◌∷◌,
  ◌++◌, arith, Option-cases, Bool-cases, count, count-append, ◌==◌, ltb,
}
use rust_netx.Prelude.Dict.{lookup, insert, lookup-insert}
use rust_netx.Wire.{Wire, ok}
use rust_netx.RetResult.{RetResult}
use rust_netx.Answers.Once.{insert-IsOnce, channels}
use rust_netx.Server
use rust_netx.Client.{Client, new_serial}
use rust_netx.Client.Calls.{register}
use rust_netx.Client.Calls.Starts.{register-eq-ok}
use rust_netx.Client.Pending.Served.{registered-IsServed}
use rust_netx.Link.Call.{Fits}
use rust_netx.Link.System.{Asked, System}
use rust_netx.Link.System.Grows.{
  insert-Grows, insert_cases, IsCall-Grows, IsAnswer-Grows, IsTold-Grows,
}
use rust_netx.Link.System.Frames.{map-append, count-without, All-append, All-mono}
use rust_netx.Link.System.Invariant.{IsCall, Good, serials, without_deadline}

module _ (w : Wire) (Executes : Server.Job → RetResult → Type 0) where
  -- No call has the serial that comes next.
  next_is_free :
      (s : System) → Good w Executes s → lookup s.client.client.serial_atomic s.asked ≡ none
  next_is_free s g = elim (Option-cases (lookup s.client.client.serial_atomic s.asked)) [
    | inl n ↦ n
    | inr (q, e) ↦ absurd (omega (arith, (g.below s.client.client.serial_atomic q e).0))
  ]

  pub draws-Good :
      (s : System)
      → Good w Executes s
      → s.client.client.serial_atomic + 1 < 2 ^ 64
      → Good w Executes (record s {
        client = record s.client { client = (new_serial s.client.client).1 };
        drawn = s.drawn ++ ((new_serial s.client.client).0 ∷ []);
      })
  unfolding new_serial
  draws-Good s g h =
      let n = s.client.client.serial_atomic in
      let next : (n + 1) % 2 ^ 64 ≡ n + 1 = omega arith in
      record {
        are_registered = g.are_registered;
        are_entered = g.are_entered;
        requests = g.requests;
        running = g.running;
        answers = g.answers;
        framing = g.framing;
        below = λ k q e. let (l, t) = g.below k q e in (omega (arith, next, l), t);
        apart = g.apart;
        pending = g.pending;
        free = λ k e. elim (Bool-cases (n == k)) [
          | inl same ↦ let e' : n ≡ k = ground (arith, same) in cc (next_is_free s g, e')
          | inr other ↦ g.free k (ground (arith, count-append k s.drawn (n ∷ [])))
        ];
        sent_requests = g.sent_requests;
        are_requests = g.are_requests;
        jobs = g.jobs;
        are_jobs = g.are_jobs;
        sent_answers = g.sent_answers;
        are_answers = g.are_answers;
        told = g.told;
        runs_once = λ k. ground (arith, next, g.runs_once k, count-append k s.drawn (n ∷ []));
        waited = g.waited;
        answered_once = g.answered_once;
        served = record { ordered = g.served.ordered; covered = g.served.covered };
      }

  -- A drawn serial is below the next one.
  drawn_below :
      (s : System) (k : ℕ)
      → Good w Executes s
      → 0 < count k s.drawn
      → k < s.client.client.serial_atomic
  drawn_below s k g h = ground (arith, g.runs_once k)

  -- The calls with the new one are below the next serial and channel, each with its own.
  below_inserted :
      (s : System) (k : ℕ) (q : Asked)
      → Good w Executes s
      → k < s.client.client.serial_atomic
      → q.tx ≡ s.next_tx
      → (j : ℕ) (p : Asked) → lookup j (insert k q s.asked) ≡ some p
      → (j < s.client.client.serial_atomic) × (p.tx < suc s.next_tx)
  below_inserted s k q g l tx j p e = elim (insert_cases j k p q s.asked e) [
    | inl (one, two) ↦
        let t : q.tx ≡ p.tx = ap (λ x. x.tx) two in (omega (arith, one, l), omega (arith, t, tx))
    | inr old ↦ let (l', t) = g.below j p old in (l', omega (arith, t))
  ]

  apart_inserted :
      (s : System) (k : ℕ) (q : Asked)
      → Good w Executes s
      → q.tx ≡ s.next_tx
      → (i j : ℕ) (p p' : Asked) → lookup i (insert k q s.asked) ≡ some p
      → lookup j (insert k q s.asked) ≡ some p'
      → p.tx ≡ p'.tx
      → i ≡ j
  apart_inserted s k q g tx i j p p' e e' same = elim (insert_cases i k p q s.asked e) [
    | inl (one, two) ↦ elim (insert_cases j k p' q s.asked e') [
      | inl (one', two') ↦ sym one ∙ one'
      | inr old' ↦ absurd (omega (arith, ap (λ x. x.tx) two, tx, same, (g.below j p' old').1))
    ]
    | inr old ↦ elim (insert_cases j k p' q s.asked e') [
      | inl (one', two') ↦
          absurd (omega (arith, ap (λ x. x.tx) two', tx, same, (g.below i p old).1))
      | inr old' ↦ g.apart i j p p' old old' same
    ]
  ]

  pub registers-Good :
      (s : System) (k : ℕ) (before behind : List ℕ) (q : Asked) (c' : Client)
      → Good w Executes s
      → s.drawn ≡ before ++ (k ∷ behind)
      → 0 < q.type_tag
      → Fits q.type_tag q.cmd k q.packed
      → q.tx ≡ s.next_tx
      → register s.client.client k q.tx ≡ ok (c', q.net)
      → Good w Executes (record s {
        client = record s.client { client = c' };
        drawn = before ++ behind;
        registered = s.registered ++ ((k, q) ∷ []);
        next_tx = suc s.next_tx;
        asked = insert k q s.asked;
      })
  registers-Good s k before behind q c' g drawn answers fits tx h =
      let c = s.client.client in
      let (up, absent, same) = register-eq-ok c c' k q.tx q.net h in
      let is_drawn : 0 < count k s.drawn = ground (arith, drawn, count-without k before k behind) in
      let grows = insert-Grows s.asked k q (g.free k is_drawn) in
      let call : IsCall (insert k q s.asked) (k, q) = record {
        made = ground (arith, lookup-insert k k q s.asked);
        answers = answers;
        fits = fits;
      } in
      let asked' = insert k q s.asked in
      let more = λ (j : ℕ).
        ap (count j) (map-append (λ p. p.0) s.registered ((k, q) ∷ []))
        ∙ count-append j (serials s.registered) (k ∷ []) in
      rw same (record {
        requests = g.requests;
        running = g.running;
        answers = g.answers;
        framing = g.framing;
        below = below_inserted s k q g (drawn_below s k g is_drawn) tx;
        apart = apart_inserted s k q g tx;
        pending = λ j t e. elim (Bool-cases (k == j)) [
          | inl e' ↦
              let at : k ≡ j = ground (arith, e') in
              (
                q,
                record {
                  made = cc (e', lookup-insert k j q s.asked);
                  answers = answers;
                  fits = rw⁻¹ at fits;
                },
                cc (e, e', lookup-insert k j q.tx c.result_dict),
              )
          | inr e' ↦
              let (p, old, t') = g.pending j t (cc (e, e', lookup-insert k j q.tx c.result_dict)) in
              (p, IsCall-Grows s.asked asked' (j, p) grows old, t')
        ];
        free = λ j e.
            let once = g.runs_once j in
            let parts = count-without j before k behind in
            let bound : count j s.drawn ≤ 1 = ground (arith, once) in
            let other : (k == j) ≡ false = ground (arith, drawn, parts, bound) in
            let was : lookup j s.asked ≡ none = g.free j (ground (arith, drawn, parts)) in
            cc (other, was, lookup-insert k j q s.asked);
        are_registered =
            All-append (IsCall asked') s.registered (k, q)
              (All-mono s.registered (λ p. IsCall-Grows s.asked asked' p grows) g.are_registered)
              call;
        are_entered = All-mono s.entered (λ p. IsCall-Grows s.asked asked' p grows) g.are_entered;
        sent_requests = g.sent_requests;
        are_requests =
            All-mono g.requests (λ p. IsCall-Grows s.asked asked' p grows) g.are_requests;
        jobs = g.jobs;
        are_jobs = All-mono g.running (λ p. IsCall-Grows s.asked asked' p grows) g.are_jobs;
        sent_answers = g.sent_answers;
        are_answers =
            All-mono g.answers (λ a. IsAnswer-Grows w Executes s.asked asked' a grows)
              g.are_answers;
        told = λ t v e. IsTold-Grows w Executes s.asked asked' t v grows (g.told t v e);
        runs_once =
            λ j. ground (arith, drawn, g.runs_once j, count-without j before k behind, more j);
        waited = λ l j t e.
            ground (arith, g.waited l j t, lookup-insert k j q.tx c.result_dict, e, more j);
        answered_once =
            rw tx
              (insert-IsOnce c.result_dict k s.next_tx (channels s.client.events) g.answered_once);
        served =
            registered-IsServed (without_deadline s)
              (λ j. ltb 0 (count j (serials (s.registered ++ ((k, q) ∷ []))) + count j s.stuck)) c k
              q.tx s.clock g.served (ground (arith, more k)) (λ j e. ground (arith, more j));
      })
