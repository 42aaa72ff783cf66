-- ===== src/Manager.antt =====
-- The server's table of sessions, netx_server/src/server/async_token_manager.rs. A token is shared
-- between the table and its connection, so it stands at an address: `tokens` is the store.
pub mod Expiry
mod Tests
use rust_netx.Prelude.{
  ℕ, suc, Bool, true, false, Option, none, some, List, [], ◌∷◌, ◌++◌, ◌==◌, if◌then◌else◌,
}
use rust_netx.Prelude.Dict.{Dict, lookup, insert, remove, values}
use rust_netx.Prelude.Deadlines.{Deadlines, is_due, push_front}
use rust_netx.Wire.{Result, ok, err, panic, manager_upgrade_fail, ◌>>=◌}
use rust_netx.Answers.{Event}
use rust_netx.Token.{
  Token, Controller, new, set_controller, set_peer, clear_controller_fun_maps, is_disconnect,
  check_request_timeout, call_special_function,
}

pub record World : Type 0 where
  pub dict : Dict ℕ
  pub tokens : ℕ → Token
  pub next_addr : ℕ
  pub clear_queue : Deadlines
  pub request_out_time : ℕ
  pub session_save_time : ℕ

-- `enum SpecialFunctionTag`
pub data SpecialFunctionTag : Type 0 where
  connect disconnect closed : SpecialFunctionTag

abbrev pub tag_value : SpecialFunctionTag → ℕ
tag_value connect = 2147483647
tag_value disconnect = 2147483646
tag_value closed = 2147483645

-- The token of a session was removed, and its controller was told.
pub data Notice : Type 0 where
  closes : ℕ → Result (Unit {0}) → Notice

-- A write into the store.
unfoldable pub update : (ℕ → Token) → ℕ → Token → ℕ → Token
update tokens a t b = if a == b then t else tokens b

abbrev pub set_token : World → ℕ → Token → World
set_token w a t = record w { tokens = update w.tokens a t }

abbrev pub start : ℕ → ℕ → World
start request_out_time session_save_time = record {
  dict = [];
  tokens = λ a. new 0;
  next_addr = 0;
  clear_queue = [];
  request_out_time = request_out_time;
  session_save_time = session_save_time;
}

-- The clock's nanoseconds, `none` where they do not fit an i64.
abbrev pub make_new_session_id : Option ℕ → Result ℕ
make_new_session_id (some nanos) = ok nanos
make_new_session_id none = panic

-- The address of the new token. `created` is what the program's `create_controller` returns.
abbrev add_token : World → ℕ → Controller → World
add_token w session_id c = record w {
  dict = insert session_id w.next_addr w.dict;
  tokens = update w.tokens w.next_addr (set_controller (new session_id) c);
  next_addr = suc w.next_addr;
}

unfoldable pub create_token : World → Option ℕ → Result Controller → Result (World × ℕ)
unfolding insert
create_token w nanos created = do
  session_id ← make_new_session_id nanos
  c ← created
  ok (add_token w session_id c, w.next_addr)

unfoldable pub get_token : World → ℕ → Option ℕ
unfolding lookup
get_token w session_id = lookup session_id w.dict

unfoldable pub get_all_tokens : World → List ℕ
unfolding values
get_all_tokens w = values w.dict

-- `IAsyncToken::get_token` through the token's weak reference to its manager.
unfoldable pub token_get_token : Option World → ℕ → Result (Option ℕ)
unfolding get_token
token_get_token (some w) session_id = ok (get_token w session_id)
token_get_token none session_id = err manager_upgrade_fail

unfoldable pub peer_disconnect : World → ℕ → ℕ → World
peer_disconnect w session_id now = record w {
  clear_queue = push_front session_id now w.clear_queue;
}

-- `for token in self.dict.values()`
unfoldable pub check_each : (ℕ → Bool) → ℕ → List ℕ → World → World × List Event
check_each rx now [] w = (w, [])
check_each rx now (a ∷ as') w =
    let (t, es) = check_request_timeout rx now w.request_out_time (w.tokens a) in
    let rest = check_each rx now as' (set_token w a t) in (rest.0, es ++ rest.1)

unfoldable pub check_tokens_request_timeout : (ℕ → Bool) → ℕ → World → World × List Event
unfolding check_each values
check_tokens_request_timeout rx now w = check_each rx now (values w.dict) w

-- A panic of the callback unwinds out of the check, before the token's controller is cleared.
abbrev pub told_tokens : (ℕ → Token) → ℕ → Result (Unit {0}) → ℕ → Token
told_tokens tokens a (ok _) = update tokens a (clear_controller_fun_maps (tokens a))
told_tokens tokens a (err e) = update tokens a (clear_controller_fun_maps (tokens a))
told_tokens tokens a panic = tokens

abbrev pub unwound : Result (Unit {0}) → Result (Unit {0})
unwound (ok _) = ok tt
unwound (err e) = ok tt
unwound panic = panic

abbrev pub Cleared : Type 0
Cleared = World × List Notice × Result (Unit {0})

-- Behind one closed session: the rest of the queue, or a panic that leaves it.
abbrev pub after_close : Deadlines → Cleared → Cleared → Cleared
after_close q (w, ns, ok _) rest = (rest.0, ns ++ rest.1, rest.2)
after_close q (w, ns, err e) rest = (rest.0, ns ++ rest.1, rest.2)
after_close q (w, ns, panic) rest = (record w { clear_queue = q }, ns, panic)

module _ (peer_down : ℕ → Result Bool) where
  -- A session whose time is over, with its token: only a disconnected one goes.
  abbrev pub close_token : World → ℕ → ℕ → Cleared
  close_token w session_id a =
      let told = call_special_function (w.tokens a) (tag_value closed) in
      if is_disconnect peer_down (w.tokens a)
      then (
        record w { dict = remove session_id w.dict; tokens = told_tokens w.tokens a told },
        closes session_id told ∷ [],
        unwound told,
      )
      else (w, [], ok tt)

  abbrev pub close_found : World → ℕ → Option ℕ → Cleared
  close_found w session_id (some a) = close_token w session_id a
  close_found w session_id none = (w, [], ok tt)

  unfoldable pub close_session : World → ℕ → Cleared
  close_session w session_id = close_found w session_id (lookup session_id w.dict)

  -- `while let Some(item) = self.request_disconnect_clear_queue.pop_back()`
  unfoldable pub clear_loop : ℕ → Deadlines → World → Cleared
  clear_loop now [] w = (record w { clear_queue = [] }, [], ok tt)
  clear_loop now ((session_id, at) ∷ q) w =
      let gone = close_session w session_id in
      let rest = clear_loop now q gone.0 in
      if is_due now w.session_save_time at
      then after_close q gone rest
      else (record w { clear_queue = (session_id, at) ∷ q }, [], ok tt)

  unfoldable pub check_tokens_disconnect_timeout : ℕ → World → Cleared
  unfolding clear_loop
  check_tokens_disconnect_timeout now w = clear_loop now w.clear_queue w

  -- One round of `start_check`. Behind a panic there is no further round.
  unfoldable pub check_round :
      (ℕ → Bool) → ℕ → World → World × List Event × List Notice × Result (Unit {0})
  unfolding check_tokens_request_timeout check_tokens_disconnect_timeout
  check_round rx now w =
      let (w', es) = check_tokens_request_timeout rx now w in
      let (w'', ns, out) = check_tokens_disconnect_timeout now w' in (w'', es, ns, out)
