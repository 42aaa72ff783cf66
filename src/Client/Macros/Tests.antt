-- ===== src/Client/Macros/Tests.antt =====
-- A use of `call!` by a client that is not connected.
use rust_netx.Prelude.{ℕ, ◌≡◌, refl, true, some, List, [], ◌∷◌, codes}
use rust_netx.Wire.{Result, Reader, ok, panic, reader}
use rust_netx.Wire.LittleEndian.{
  plain, read_flag, write_flag, read_le, le, split_bytes, write_sized,
}
use rust_netx.RetResult.{success, add_arg_buff, write_result, from}
use rust_netx.Client.{Client, new}
use rust_netx.Client.Macros.{Given, call_value}

abbrev idle : Client
idle = new (record { service_name = codes "svc"; verify_key = []; request_out_time_ms = 5000 }) 0

-- The connection is made, and the answer has the value 7.
abbrev given : Given
given = record {
  watch = 4;
  tx = 6;
  connected = some (ok 2);
  changed = some (true, []);
  now = 2000;
  send_all = ok tt;
  answer = some (ok (reader (write_result plain (add_arg_buff success (some (7 ∷ []))))));
}

abbrev first_byte : Reader → Result ℕ
first_byte r = elim r.unread [ [] ↦ panic | b ∷ bs ↦ ok b ]

abbrev args : List (Result (List ℕ))
args = ok (1 ∷ []) ∷ []

after : Client
after = (call_value plain given first_byte idle 5 args).0

value_arrives : call_value plain given first_byte idle 5 args ≡ (after, ok 7)
unfolding call_value after from write_result read_flag write_flag read_le le split_bytes write_sized
value_arrives = refl
