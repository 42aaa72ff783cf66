-- ===== src/Server.antt =====
-- The server's side of a connection, netx_server/src/server/impl_server.rs. A connection reads from
-- the bytes that arrive on it until it is closed; `send_all` is the outcome of a send to the peer.
pub mod Failures
pub mod Commands
pub mod Leaks
pub mod Teardown
pub mod Sessions
pub mod Jobs
mod Tests
use rust_netx.Prelude.{
  ℕ, suc, zero, ◌+◌, Bool, true, false, Option, none, some, List, [], ◌∷◌, ◌++◌, ◌==◌, ◌&&◌, not,
  if◌then◌else◌, length, codes, bytes_eq,
}
use mathlib.Core.Option
use rust_netx.Wire.{
  Wire, Reader, Error, Result, ok, err, panic, anyhow, not_verify_key, service_name_error,
  verify_key_error, or_io, ◌>>=◌, ◌>>◌,
}
use rust_netx.Wire.Frame.{patch_len, read_string, read_buff}
use rust_netx.RetResult.{RetResult, write_result}
use rust_netx.Answers.{Event}
use rust_netx.Token.{Token, Controller, send, set_peer, set_result, call_special_function}
use rust_netx.Manager.{
  World, set_token, get_token, create_token, peer_disconnect, tag_value, connect, disconnect,
}

-- netx_server/src/server/option.rs; the two times are fields of `World`.
pub record ServerOption : Type 0 where
  pub service_name : List ℕ
  pub verify_key : List ℕ

module _ (w : Wire) where
  unfoldable pub get_result_buff : ℕ → RetResult → List ℕ
  get_result_buff serial result =
      patch_len w (w.int 4 0 ++ (w.int 4 2500 ++ (w.int 8 serial ++ write_result w result)))

  unfoldable pub session_id_msg : ℕ → List ℕ
  session_id_msg session_id = patch_len w (w.int 4 0 ++ (w.int 4 2000 ++ w.int 8 session_id))

  unfoldable pub key_verify_msg : Bool → List ℕ → List ℕ
  key_verify_msg is_err msg =
      patch_len w
        (w.int 4 0 ++ (w.int 4 1000 ++ (w.write_bool is_err ++ (w.write_bytes msg ++ w.int 1 1))))

-- What the checks of `get_peer_token` find: the rest of the stream, a text to refuse the peer with
-- and the error, or an error of a read.
pub data Verdict : Type 0 where
  accepted : List ℕ → Verdict
  refused : List ℕ → Error → Verdict
  broken : Error → Verdict
  stopped : Verdict

abbrev or_broken {ℓ} : {A : Type ℓ} → Result A → (A → Verdict) → Verdict
or_broken (ok a) f = f a
or_broken (err e) f = broken e
or_broken panic f = stopped

-- `!expected.is_empty() && got != expected`
abbrev pub differs : List ℕ → List ℕ → Bool
differs [] got = false
differs (b ∷ bs) got = not (bytes_eq got (b ∷ bs))

module _ (w : Wire) (o : ServerOption) where
  abbrev check_key : List ℕ → List ℕ → List ℕ → Verdict
  check_key name password rest =
      if differs o.verify_key password
      then refused (codes "service verify key error") (anyhow (verify_key_error name))
      else accepted rest

  abbrev check_name : List ℕ → List ℕ → Verdict
  check_name name rest =
      if differs o.service_name name
      then refused (codes "service name error") (anyhow (service_name_error name))
      else or_broken (read_string w rest) (λ p. check_key name p.0 p.1)

  unfoldable pub check_credentials : List ℕ → Verdict
  check_credentials stream = or_broken (or_io (w.read_int 4 stream)) (λ c.
      if c.0 == 1000
      then or_broken (read_string w c.1) (λ p. check_name p.0 p.1)
      else refused (codes "not verify key") (anyhow not_verify_key))

-- The token of a session: the one in the table, or a new one.
abbrev found_or_new : World → Option ℕ → Result Controller → Option ℕ → Result (World × ℕ)
found_or_new s nanos created (some a) = ok (s, a)
found_or_new s nanos created none = create_token s nanos created

unfoldable pub open_session : World → Option ℕ → Result Controller → ℕ → Result (World × ℕ)
open_session s nanos created session =
    if session == 0
    then create_token s nanos created
    else found_or_new s nanos created (get_token s session)

module _ (w : Wire) (o : ServerOption) (s : World) (nanos : Option ℕ)
    (created : Result Controller) where
  abbrev read_session : List ℕ → Result (World × ℕ × List ℕ)
  read_session stream = do
    (session, rest) ← or_io (w.read_int 8 stream)
    (s', a) ← open_session s nanos created session
    ok (s', a, rest)

  -- What was sent to the peer, and the state, the token's address and the rest of the stream.
  abbrev answer_peer : Result (Unit {0}) → Verdict → List (List ℕ) × Result (World × ℕ × List ℕ)
  answer_peer send_all (accepted rest) =
      (key_verify_msg w false (codes "verify success") ∷ [], send_all >> read_session rest)
  answer_peer send_all (refused msg e) = (key_verify_msg w true msg ∷ [], send_all >> err e)
  answer_peer send_all (broken e) = ([], err e)
  answer_peer send_all stopped = ([], panic)

  unfoldable pub get_peer_token :
      Result (Unit {0}) → List ℕ → List (List ℕ) × Result (World × ℕ × List ℕ)
  unfolding check_credentials open_session
  get_peer_token send_all stream = answer_peer send_all (check_credentials w o stream)

-- A call of the controller that runs in a task of its own.
pub record Job : Type 0 where
  pub type_tag : ℕ
  pub cmd : ℕ
  pub serial : ℕ
  pub args : Reader

-- A connection that reads: its token, the messages sent to the peer, the tasks started, and the
-- answers handed to the token's calls.
pub record Reading : Type 0 where
  pub token : Token
  pub out : List (List ℕ)
  pub jobs : List Job
  pub events : List Event

abbrev pub reading : Token → Reading
reading t = record { token = t; out = []; jobs = []; events = [] }

module _ (w : Wire) (rx : ℕ → Bool) (send_all : Result (Unit {0})) where
  -- `send_to_session_id(token).await?`
  abbrev pub send_to_session_id : Reading → Reading × Result (Unit {0})
  send_to_session_id r = elim (send r.token) [
    | ok p ↦ (record r { out = r.out ++ (session_id_msg w r.token.session_id ∷ []) }, send_all)
    | err e ↦ (r, err e)
    | panic ↦ (r, panic)
  ]

  -- `tokio::spawn` for the types 0, 1 and 2; any other is logged.
  abbrev spawn : Reading → Job → Reading
  spawn r job =
      let r' = record r { jobs = r.jobs ++ (job ∷ []) } in
      if job.type_tag == 0
      then r'
      else if job.type_tag == 1
      then r'
      else if job.type_tag == 2
      then r'
      else r

  abbrev parse_job : Reader → List ℕ → Result Job
  parse_job dr s = do
    (type_tag, s1) ← or_io (w.read_int 1 s)
    (cmd, s2) ← or_io (w.read_int 4 s1)
    (serial, s3) ← or_io (w.read_int 8 s2)
    ok (record {
      type_tag = type_tag;
      cmd = cmd;
      serial = serial;
      args = record dr { unread = s3 };
    })

  abbrev start_job : Reading → Result Job → Reading × Result (Unit {0})
  start_job r (ok job) = (spawn r job, ok tt)
  start_job r (err e) = (r, err e)
  start_job r panic = (r, panic)

  -- `token.set_result(serial, dr).await?`
  abbrev take_result : Reading → Reader → Result (ℕ × List ℕ) → Reading × Result (Unit {0})
  take_result r dr (ok (serial, s)) =
      let a = set_result rx w r.token serial (record dr { unread = s }) in
      (record r { token = a.0; events = r.events ++ a.1 }, a.2)
  take_result r dr (err e) = (r, err e)
  take_result r dr panic = (r, panic)

  abbrev pub on_command : Reading → Reader → Result (ℕ × List ℕ) → Reading × Result (Unit {0})
  on_command r dr (ok (cmd, s)) =
      if cmd == 2000
      then send_to_session_id r
      else if cmd == 2400
      then start_job r (parse_job dr s)
      else if cmd == 2500
      then take_result r dr (or_io (w.read_int 8 s))
      else (r, ok tt)
  on_command r dr (err e) = (r, err e)
  on_command r dr panic = (r, panic)

  -- The body of the loop of `data_reading`.
  unfoldable pub on_frame : Reading → Reader → Reading × Result (Unit {0})
  on_frame r dr = on_command r dr (or_io (w.read_int 4 dr.unread))

  -- `while let Ok(mut dr) = reader.read_buff().await`; `none` means that the fuel ran out.
  -- `next` is the loop on the rest of the stream.
  abbrev continue :
      (List ℕ → Reading → Option (Reading × Result (Unit {0})))
      → List ℕ
      → Reading × Result (Unit {0})
      → Option (Reading × Result (Unit {0}))
  continue next rest (r, ok _) = next rest r
  continue next rest (r, err e) = some (r, err e)
  continue next rest (r, panic) = some (r, panic)

  abbrev with_frame :
      (List ℕ → Reading → Option (Reading × Result (Unit {0})))
      → Reading
      → Result (Reader × List ℕ)
      → Option (Reading × Result (Unit {0}))
  with_frame next r (ok (dr, rest)) = continue next rest (on_frame r dr)
  with_frame next r (err e) = some (r, ok tt)
  with_frame next r panic = some (r, panic)

  unfoldable pub read_loop : Bool → ℕ → List ℕ → Reading → Option (Reading × Result (Unit {0}))
  read_loop checks zero stream r = none
  read_loop checks (suc fuel) stream r =
      with_frame (read_loop checks fuel) r (read_buff w checks stream)

  -- A frame takes four bytes at least, so the length of the stream is fuel enough.
  unfoldable pub data_reading : Bool → List ℕ → Reading → Option (Reading × Result (Unit {0}))
  unfolding read_loop
  data_reading checks stream r = read_loop checks (suc (length stream)) stream r

  -- `read_buff_byline`
  abbrev after_connect :
      Bool → List ℕ → Token → Result (Unit {0}) → Option (Reading × Result (Unit {0}))
  after_connect checks stream t (ok _) = data_reading checks stream (reading t)
  after_connect checks stream t (err e) = some (reading t, err e)
  after_connect checks stream t panic = some (reading t, panic)

  unfoldable pub read_buff_byline : Bool → List ℕ → Token → Option (Reading × Result (Unit {0}))
  read_buff_byline checks stream t =
      after_connect checks stream t (call_special_function t (tag_value connect))

-- A connection takes its token, and gives it up at its end.
unfoldable pub attach : World → ℕ → ℕ → World
attach s a peer = set_token s a (set_peer (s.tokens a) (some peer))

abbrev pub after_disconnect : World → ℕ → ℕ → Result (Unit {0}) → World × Result (Unit {0})
after_disconnect s a now (ok _) = (peer_disconnect s (s.tokens a).session_id now, ok tt)
after_disconnect s a now (err e) = (s, err e)
after_disconnect s a now panic = (s, panic)

unfoldable pub teardown : World → ℕ → ℕ → World × Result (Unit {0})
teardown s a now =
    let s' = set_token s a (set_peer (s.tokens a) none) in
    after_disconnect s' a now (call_special_function (s'.tokens a) (tag_value disconnect))

-- What a connection leaves when it is over.
pub record Outcome : Type 0 where
  pub world : World
  pub out : List (List ℕ)
  pub jobs : List Job
  pub events : List Event
  pub result : Result (Unit {0})

-- After the reads: the teardown, unless the task has panicked.
abbrev finish : World → ℕ → ℕ → List (List ℕ) → Reading × Result (Unit {0}) → Outcome
finish s a now msgs (r, panic) = record {
  world = set_token s a r.token;
  out = msgs ++ r.out;
  jobs = r.jobs;
  events = r.events;
  result = panic;
}
finish s a now msgs (r, res) =
    let d = teardown (set_token s a r.token) a now in
    record {
      world = d.0;
      out = msgs ++ r.out;
      jobs = r.jobs;
      events = r.events;
      result = d.1 >> res;
    }

-- A peer that gets no token is only logged.
abbrev no_token : World → List (List ℕ) → Result (Unit {0}) → Outcome
no_token s msgs res = record { world = s; out = msgs; jobs = []; events = []; result = res }

module _ (w : Wire) (o : ServerOption) (rx : ℕ → Bool) (send_all : Result (Unit {0}))
    (checks : Bool) where
  abbrev serve : World → ℕ → ℕ → List (List ℕ) × Result (World × ℕ × List ℕ) → Option Outcome
  serve s peer now (msgs, ok (s', a, rest)) =
      let s'' = attach s' a peer in
      Option.map (finish s'' a now msgs) (read_buff_byline w rx send_all checks rest (s''.tokens a))
  serve s peer now (msgs, err e) = some (no_token s msgs (ok tt))
  serve s peer now (msgs, panic) = some (no_token s msgs panic)

  -- The closure of `set_input_event`, where no other task touches the token meanwhile.
  unfoldable pub input_event :
      World → Option ℕ → Result Controller → ℕ → ℕ → List ℕ → Option Outcome
  unfolding get_peer_token read_buff_byline attach teardown
  input_event s nanos created peer now stream =
      serve s peer now (get_peer_token w o s nanos created send_all stream)
