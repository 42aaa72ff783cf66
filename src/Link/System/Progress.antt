-- ===== src/Link/System/Progress.antt =====
-- What the loops of netx_client/src/client/impl_client.rs and netx_server/src/server/impl_server.rs
-- find in the bytes on their way, and where the pending calls are.
use rust_netx.Prelude.{
  ℕ, ◌+◌, ◌%◌, ◌<◌, ◌^◌, ◌≡◌, ◌⊎◌, inl, inr, refl, ap, ◌∙◌, sym, Bool, none, some, List, [], ◌∷◌,
  ◌++◌, arith, length, length-append, map, count, All, Option-cases, append-nil,
}
use rust_netx.Prelude.Dict.{Dict, lookup}
use rust_netx.Wire.{Wire, Reader, reader, Result, ok}
use rust_netx.Wire.Frame.{frame, frames, read_buff}
use rust_netx.Wire.Frame.Laws.{read_buff-frame}
use rust_netx.RetResult.{RetResult, from, write_result}
use rust_netx.RetResult.Parse.{IsSendable, received, from-write_result}
use rust_netx.Token.{Token}
use rust_netx.Server
use rust_netx.Client.{Client}
use rust_netx.Client.Calls.{set_result}
use rust_netx.Client.Stream
use rust_netx.Link.Call.{answer_body, answer_short, request_short}
use rust_netx.Link.Call.ToServer.{answered, on_request}
use rust_netx.Link.System.{Asked, System, Steps, connected, IsIdle, request_of}
use rust_netx.Link.System.Frames.{read_message-frame}
use rust_netx.Link.System.Invariant.{IsCall, IsAnswer, serials, answer_of, job_of}
use rust_netx.Link.System.Answers.{reached-Good}

module _ (w : Wire) where
  frames_empty : (bodies : List (List ℕ)) → frames w bodies ≡ [] → bodies ≡ []
  unfolding frame
  frames_empty [] h = refl
  frames_empty (b ∷ bodies) h =
      let n = (length b + 4) % 2 ^ 32 in
      absurd (
        omega (
          arith,
          ap length h,
          length-append (w.int 4 n ++ b) (frames w bodies),
          length-append (w.int 4 n) b,
          w.length-int 4 n,
        ))

  -- A result that arrives is handed on or logged, and the loop goes on.
  set_result-ok :
      (rx : ℕ → Bool) (c : Client) (k : ℕ) (res : RetResult)
      → IsSendable w res
      → (set_result rx w c k (answered w k res)).2 ≡ ok tt
  unfolding set_result
  set_result-ok rx c k res h =
      let e = from-write_result w res (answer_body w k (write_result w res)) [] h in
      let e' : from w (answered w k res) ≡ ok (received res) =
        rw (append-nil (write_result w res)) at e in
      elim (Option-cases (lookup k c.result_dict)) [
        | inl n ↦ rw (n, e') refl
        | inr (tx, e'') ↦ rw e'' refl
      ]

  on_frame-goes_on :
      (rx : ℕ → Bool) (send_all : Result (Unit {0})) (k : ℕ) (res : RetResult) (r : Stream.Reading)
      → k < 2 ^ 64
      → IsSendable w res
      → (Stream.on_frame w rx send_all r (reader (answer_of w (k, res)))).1 ≡ Stream.next
  unfolding Stream.on_frame
  on_frame-goes_on rx send_all k res r h sendable =
      rw
        (
          w.read_int-int 4 2500 (w.int 8 k ++ write_result w res) (omega arith),
          w.read_int-int 8 k (write_result w res) h,
          set_result-ok rx r.client k res sendable,
        )
        refl

  -- What each loop finds in the bytes that have arrived.
  server_goes_on :
      (rx : ℕ → Bool) (send_all : Result (Unit {0})) (overflow : Bool) (asked : Dict Asked)
      (r : Server.Reading) (requests : List (ℕ × Asked)) (bytes : List ℕ)
      → bytes ≡ frames w (map (request_of w) requests)
      → All (IsCall asked) requests
      → (bytes ≡ [])
        ⊎ ((dr : Reader) × (rest : List ℕ) × (read_buff w overflow bytes ≡ ok (dr, rest))
            × ((Server.on_frame w rx send_all r dr).1 ≡ ok tt))
  server_goes_on rx send_all overflow asked r [] bytes same h = inl same
  server_goes_on rx send_all overflow asked r ((k, q) ∷ requests) bytes same h =
      let body = request_of w (k, q) in
      let rest = frames w (map (request_of w) requests) in
      let short = request_short w q.type_tag q.cmd k q.args_count q.packed h.0.fits in
      inr (
        reader body,
        rest,
        rw same (read_buff-frame w overflow body rest short),
        ap (λ x. x.1)
            (on_request w rx send_all q.type_tag q.cmd k q.args_count q.packed r h.0.fits),
      )

map_empty {ℓ κ} : {A : Type ℓ} {B : Type κ} (f : A → B) (xs : List A) → map f xs ≡ [] → xs ≡ []
map_empty f [] h = refl
map_empty f (x ∷ xs) h = absurd (cc h)

module _ (w : Wire) (Executes : Server.Job → RetResult → Type 0) (send_all : Result (Unit {0}))
    (overflow : Bool) where
  client_goes_on :
      (rx : ℕ → Bool) (asked : Dict Asked) (r : Stream.Reading) (answers : List (ℕ × RetResult))
      (bytes : List ℕ)
      → bytes ≡ frames w (map (answer_of w) answers)
      → All (IsAnswer w Executes asked) answers
      → (bytes ≡ [])
        ⊎ ((p : ℕ × List ℕ) × (dr : Reader) × (rest : List ℕ) × (w.read_int 4 bytes ≡ some p)
            × (Stream.read_message w rx send_all overflow p ≡ ok (dr, rest))
            × ((Stream.on_frame w rx send_all r dr).1 ≡ Stream.next))
  client_goes_on rx asked r [] bytes same h = inl same
  client_goes_on rx asked r ((k, res) ∷ answers) bytes same h =
      let body = answer_of w (k, res) in
      let rest = frames w (map (answer_of w) answers) in
      let short = answer_short w k (write_result w res) h.0.result.short in
      let (e, e') = read_message-frame w rx send_all overflow body rest short in
      inr (
        (length body + 4, body ++ rest),
        reader body,
        rest,
        rw same e,
        e',
        on_frame-goes_on w rx send_all k res r h.0.call.fits.serial_fits h.0.result.sendable,
      )

  -- On connections that carry only the client's calls that ask for an answer and the answers to them,
  -- from a connected client in a framed mode, without pending calls and with an empty queue, on,
  -- whatever the interleaving: each reading loop has nothing to read or a whole message, which it
  -- handles without an error or an end of the loop, whichever callers still wait and whatever a send
  -- gives. So a call that has timed out, or whose caller is gone, ends neither loop.
  pub loops_go_on :
      (rx : ℕ → Bool) (c : Client) (t : Token) (now : ℕ) (s : System)
      → IsIdle c
      → Steps w send_all overflow Executes (connected c t now w rx send_all) s
      → ((s.to_server ≡ [])
          ⊎ ((dr : Reader) × (rest : List ℕ) × (read_buff w overflow s.to_server ≡ ok (dr, rest))
              × ((Server.on_frame w rx send_all s.server dr).1 ≡ ok tt)))
        × ((s.to_client ≡ [])
            ⊎ ((p : ℕ × List ℕ) × (dr : Reader) × (rest : List ℕ) × (w.read_int 4 s.to_client
                  ≡ some p)
                × (Stream.read_message w rx send_all overflow p ≡ ok (dr, rest))
                × ((Stream.on_frame w rx send_all s.client dr).1 ≡ Stream.next)))
  loops_go_on rx c t now s idle h =
      let g = reached-Good w Executes send_all overflow rx c t now s idle h in
      (
        server_goes_on w rx send_all overflow s.asked s.server g.requests s.to_server
            g.sent_requests g.are_requests,
        client_goes_on rx s.asked s.client g.answers s.to_client g.sent_answers g.are_answers,
      )

  -- From a connected client in a framed mode, without pending calls and with an empty queue, on,
  -- whatever the interleaving: when no connection was lost, no caller was dropped before its send, no
  -- send failed, every task sent an answer, no caller is between its registration and its send,
  -- nothing is on its way in either direction and no task of the server runs, no call is pending.
  pub no_call_is_lost :
      (rx : ℕ → Bool) (c : Client) (t : Token) (now : ℕ) (s : System)
      → IsIdle c
      → Steps w send_all overflow Executes (connected c t now w rx send_all) s
      → s.losses ≡ 0
      → s.registered ≡ []
      → s.entered ≡ []
      → s.to_server ≡ []
      → s.server.jobs ≡ []
      → s.to_client ≡ []
      → (k : ℕ) → lookup k s.client.client.result_dict ≡ none
  no_call_is_lost rx c t now s idle h whole first second sent jobs answers k =
      let g = reached-Good w Executes send_all overflow rx c t now s idle h in
      let e1 : g.requests ≡ [] =
        map_empty (request_of w) g.requests
          (frames_empty w (map (request_of w) g.requests) (sym g.sent_requests ∙ sent)) in
      let e2 : g.running ≡ [] = map_empty (job_of w) g.running (sym g.jobs ∙ jobs) in
      let e3 : g.answers ≡ [] =
        map_empty (answer_of w) g.answers
          (frames_empty w (map (answer_of w) g.answers) (sym g.sent_answers ∙ answers)) in
      elim (Option-cases (lookup k s.client.client.result_dict)) [
        | inl n ↦ n
        | inr (tx, e) ↦ absurd (
            omega (
              arith,
              g.waited whole k tx e,
              ap (λ x. count k (serials x)) first,
              ap (λ x. count k (serials x)) second,
              ap (λ x. count k (serials x)) e1,
              ap (λ x. count k (serials x)) e2,
              ap (λ x. count k (serials x)) e3,
            ))
      ]
