-- ===== src/RetResult/Tests.antt =====
-- Results at concrete values.
use rust_netx.Prelude.{◌≡◌, refl, ◌↔◌, [], ◌∷◌, ◌++◌, arith}
use rust_netx.Wire.{Reader, reader, ok, panic}
use rust_netx.Wire.LittleEndian.{plain, read_flag, read_le}
use rust_netx.RetResult.{RetResult, success, add_arg_buff, from, write_result}
use rust_netx.RetResult.Parse.{
  IsSendable, HasNegativeCount, received, from-write_result, from_panics_iff,
}
use mathlib.Core.Option.{some}

abbrev two_args : RetResult
two_args = add_arg_buff (add_arg_buff success (some (1 ∷ 2 ∷ []))) (some (3 ∷ []))

two_args-IsSendable : IsSendable plain two_args
two_args-IsSendable = record {
  id_fits = omega arith;
  msg_utf8 = refl;
  msg_fits = omega arith;
  count_fits = omega arith;
  args_fit = (omega arith, (omega arith, tt));
}

from-write_result_example :
    from plain (record { inner = []; unread = write_result plain two_args ++ (9 ∷ []) })
    ≡ ok (received two_args)
from-write_result_example = from-write_result plain two_args [] (9 ∷ []) two_args-IsSendable

-- A success with the count -2147483648.
abbrev negative : Reader
negative = reader (0 ∷ 0 ∷ 0 ∷ 0 ∷ 128 ∷ [])

from_panics_iff_example : (from plain negative ≡ panic) ↔ HasNegativeCount plain negative.unread
from_panics_iff_example = from_panics_iff plain negative

negative-HasNegativeCount : HasNegativeCount plain negative.unread
unfolding read_flag read_le
negative-HasNegativeCount = (0 ∷ 0 ∷ 0 ∷ 128 ∷ [], 2147483648, [], refl, refl, omega arith)

from-negative : from plain negative ≡ panic
from-negative = (from_panics_iff plain negative).1 negative-HasNegativeCount
