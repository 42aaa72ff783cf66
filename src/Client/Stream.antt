-- ===== src/Client/Stream.antt =====
-- `read_buffer` of netx_client/src/client/impl_client.rs: what the client does with the messages of the server.
use rust_netx.Prelude.{
  ℕ, zero, suc, ◌-◌, Bool, true, false, Option, none, some, List, [], ◌∷◌, ◌++◌, ◌==◌,
  if◌then◌else◌, length,
}
use rust_netx.Wire.{Wire, Reader, reader, Error, Result, ok, err, panic, or_io, ◌>>=◌}
use rust_netx.Wire.Frame.{sub_u32, read_exact}
use rust_netx.Answers.{Event}
use rust_netx.Client.{Client, set_mode, store_session_id, get_session_id_buff, get_verify_buff}
use rust_netx.Client.Calls.{set_result}

-- A call of the controller that runs in a task of its own.
pub record Job : Type 0 where
  pub type_tag : ℕ
  pub cmd : ℕ
  pub session_id : ℕ
  pub args : Reader

-- The connection: the client, the messages to the server, the tasks started, the answers handed to
-- calls, whether `option_connect` still holds `set_connect`, whether the task that calls `Connect`
-- has been started, and what `set_connect` was sent from here.
pub record Reading : Type 0 where
  pub client : Client
  pub out : List (List ℕ)
  pub jobs : List Job
  pub events : List Event
  pub has_set_connect : Bool
  pub connects : Bool
  pub told : List (Bool × List ℕ)

-- How the body of the loop ends.
pub data Flow : Type 0 where
  next : Flow
  breaks : Flow
  fails : Error → Flow
  panics : Flow

abbrev pub then_flow {ℓ} : {A : Type ℓ} → Reading → Result A → (A → Reading × Flow) → Reading × Flow
then_flow r (ok a) f = f a
then_flow r (err e) f = (r, fails e)
then_flow r panic f = (r, panics)

-- The offset is what has been read of the whole buffer.
abbrev rest_len : Reader → List ℕ → ℕ
rest_len dr s = let offset = length dr.inner - length s in length dr.inner - offset

module _ (w : Wire) (rx : ℕ → Bool) (send_all : Result (Unit {0})) where
  -- `option_connect.take()` with the task that calls `Connect`.
  abbrev pub take_connect : Reading → Reading
  take_connect r =
      if r.has_set_connect then record r { has_set_connect = false; connects = true } else r

  abbrev greet : Reading → Reading × Flow
  greet r =
      let r' = record r { out = r.out ++ (get_session_id_buff w (r.client).mode ∷ []) } in
      then_flow r' send_all (λ _. (take_connect r', next))

  -- One byte left that is 1 says that the server knows mode 1.
  abbrev read_mode : Reading → Reader → List ℕ → Reading × Flow
  read_mode r dr s =
      if rest_len dr s == 1
      then then_flow r (or_io (w.read_int 1 s))
          (λ p. greet (if p.0 == 1 then record r { client = set_mode r.client 1 } else r))
      else greet r

  abbrev pub refuse : Reading → List ℕ → Reading × Flow
  refuse r msg =
      if r.has_set_connect
      then (record r { has_set_connect = false; told = r.told ++ ((false, msg) ∷ []) }, breaks)
      else (r, breaks)

  abbrev on_verified : Reading → Reader → List ℕ → Reading × Flow
  on_verified r dr s = then_flow r (or_io (w.read_bool s)) (λ p.
      then_flow r (or_io (w.read_str p.1)) (λ q. if p.0 then refuse r q.0 else read_mode r dr q.1))

  abbrev on_session_id : Reading → List ℕ → Reading × Flow
  on_session_id r s =
      then_flow r (or_io (w.read_int 8 s))
        (λ p. (record r { client = store_session_id r.client p.0 }, next))

  abbrev spawn : Reading → Job → Reading × Flow
  spawn r job =
      let r' = record r { jobs = r.jobs ++ (job ∷ []) } in
      if job.type_tag == 0
      then (r', next)
      else if job.type_tag == 1
      then (r', next)
      else if job.type_tag == 2
      then (r', next)
      else (r, panics)

  abbrev on_call : Reading → Reader → List ℕ → Reading × Flow
  on_call r dr s = then_flow r (or_io (w.read_int 1 s)) (λ t.
      then_flow r (or_io (w.read_int 4 t.1)) (λ c. then_flow r (or_io (w.read_int 8 c.1)) (λ n.
        spawn r (record {
          type_tag = t.0;
          cmd = c.0;
          session_id = n.0;
          args = record dr { unread = n.1 };
        }))))

  abbrev on_result : Reading → Reader → List ℕ → Reading × Flow
  on_result r dr s = then_flow r (or_io (w.read_int 8 s)) (λ p.
      let a = set_result rx w r.client p.0 (record dr { unread = p.1 }) in
      let r' = record r { client = a.0; events = r.events ++ a.1 } in
      then_flow r' a.2 (λ _. (r', next)))

  -- The body of the loop, on the buffer of one message.
  unfoldable pub on_frame : Reading → Reader → Reading × Flow
  on_frame r dr = then_flow r (or_io (w.read_int 4 dr.unread)) (λ c.
      if c.0 == 1000
      then on_verified r dr c.1
      else if c.0 == 2000
      then on_session_id r c.1
      else if c.0 == 2400
      then on_call r dr c.1
      else if c.0 == 2500
      then on_result r dr c.1
      else (r, breaks))

  -- `(len - 4) as usize` and `read_exact`: here an end inside a message is an error.
  abbrev pub read_message : Bool → ℕ × List ℕ → Result (Reader × List ℕ)
  read_message checks (n, s) = do
    len ← sub_u32 checks n 4
    (buff, rest) ← read_exact len s
    ok (reader buff, rest)

  abbrev pub continue :
      (List ℕ → Reading → Option (Reading × Result (Unit {0})))
      → List ℕ
      → Reading × Flow
      → Option (Reading × Result (Unit {0}))
  continue loop rest (r, next) = loop rest r
  continue loop rest (r, breaks) = some (r, ok tt)
  continue loop rest (r, fails e) = some (r, err e)
  continue loop rest (r, panics) = some (r, panic)

  abbrev pub with_message :
      (List ℕ → Reading → Option (Reading × Result (Unit {0})))
      → Reading
      → Result (Reader × List ℕ)
      → Option (Reading × Result (Unit {0}))
  with_message loop r (ok (dr, rest)) = continue loop rest (on_frame r dr)
  with_message loop r (err e) = some (r, err e)
  with_message loop r panic = some (r, panic)

  abbrev pub with_len :
      (List ℕ → Reading → Option (Reading × Result (Unit {0})))
      → Bool
      → Reading
      → Option (ℕ × List ℕ)
      → Option (Reading × Result (Unit {0}))
  with_len loop checks r (some p) = with_message loop r (read_message checks p)
  with_len loop checks r none = some (r, ok tt)

  -- `while let Ok(len) = reader.read_u32_le().await`; `none` means that the fuel ran out.
  unfoldable pub read_loop : Bool → ℕ → List ℕ → Reading → Option (Reading × Result (Unit {0}))
  read_loop checks zero stream r = none
  read_loop checks (suc fuel) stream r =
      with_len (read_loop checks fuel) checks r (w.read_int 4 stream)

  abbrev pub after_verify :
      Bool → List ℕ → Reading → Result (Unit {0}) → Option (Reading × Result (Unit {0}))
  after_verify checks stream r (ok _) = read_loop checks (suc (length stream)) stream r
  after_verify checks stream r (err e) = some (r, err e)
  after_verify checks stream r panic = some (r, panic)

  unfoldable pub reading : Client → Reading
  reading c = record {
    client = c;
    out =
        get_verify_buff w (c.server_info).service_name (c.server_info).verify_key c.session_id ∷ [];
    jobs = [];
    events = [];
    has_set_connect = true;
    connects = false;
    told = [];
  }

  -- `read_buffer`: the credentials, then the loop.
  unfoldable pub read_buffer : Bool → List ℕ → Client → Option (Reading × Result (Unit {0}))
  unfolding read_loop reading
  read_buffer checks stream c = after_verify checks stream (reading c) send_all
