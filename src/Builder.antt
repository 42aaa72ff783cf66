-- ===== src/Builder.antt =====
-- The procedural macros of netx_builder/src/lib.rs: what they read of a trait. Names and types are
-- their bytes; a macro that panics stops the compilation.
pub mod Generated
pub mod Tests
use rust_netx.Prelude.{
  zero, suc, ℕ, Bool, true, false, Option, none, some, List, [], ◌∷◌, codes, bytes_eq,
  if◌then◌else◌,
}
use rust_netx.Wire.{Result, ok, err, panic, ◌>>=◌}

-- The argument of a `tag` attribute, as `namespace_parameter` of proc_macro_roids gives it: an
-- integer literal with its value if it is an i32, another literal, a path, or something else.
pub data TagArg : Type 0 where
  int_lit : Option ℕ → TagArg
  other_lit : TagArg
  path : List (List ℕ) → TagArg
  other_meta : TagArg

-- What `get_function_tt` looks at in a type: a generic argument is a tuple of so many types or
-- something else.
pub data GenericArg : Type 0 where
  tuple : ℕ → GenericArg
  other_arg : GenericArg

pub data PathArgs : Type 0 where
  angle_bracketed : List GenericArg → PathArgs
  other_args : PathArgs

pub record Segment : Type 0 where
  pub ident : List ℕ
  pub arguments : PathArgs

pub data ReturnType : Type 0 where
  default_return : ReturnType
  path_return : List Segment → ReturnType
  other_return : ReturnType

-- A parameter: the receiver, or a pattern with a type.
pub data FnArg : Type 0 where
  receiver : FnArg
  named : List ℕ → List ℕ → FnArg
  patterned : List ℕ → FnArg

pub record Method : Type 0 where
  pub tag : Option TagArg
  pub is_async : Bool
  pub func_name : List ℕ
  pub inputs : List FnArg
  pub output : ReturnType

pub data TraitItem : Type 0 where
  method : Method → TraitItem
  other_item : TraitItem

-- netx_builder/src/global_info.rs
pub record FuncInfo : Type 0 where
  pub tag : ℕ
  pub tt : ℕ
  pub func_name : List ℕ
  pub args_type : List (List ℕ)
  pub inputs : List FnArg
  pub input_names : List (List ℕ)
  pub output : ReturnType

abbrev pub connect_tag : ℕ
connect_tag = 2147483647

abbrev pub disconnect_tag : ℕ
disconnect_tag = 2147483646

abbrev pub closed_tag : ℕ
closed_tag = 2147483645

abbrev special_tag : List ℕ → Result (Option ℕ)
special_tag ident =
    if bytes_eq ident (codes "connect")
    then ok (some connect_tag)
    else if bytes_eq ident (codes "disconnect")
    then ok (some disconnect_tag)
    else if bytes_eq ident (codes "closed")
    then ok (some closed_tag)
    else panic

unfoldable pub have_tag : Option TagArg → Result (Option ℕ)
have_tag none = ok none
have_tag (some (int_lit (some v))) = ok (some v)
have_tag (some (int_lit none)) = panic
have_tag (some other_lit) = panic
have_tag (some (path [])) = panic
have_tag (some (path (ident ∷ []))) = special_tag ident
have_tag (some (path (a ∷ b ∷ rest))) = panic
have_tag (some other_meta) = panic

-- `Result<()>` is 1, any other `Result<T>` is 2.
abbrev tt_of_args : PathArgs → Result ℕ
tt_of_args (angle_bracketed []) = panic
tt_of_args (angle_bracketed (tuple zero ∷ [])) = ok 1
tt_of_args (angle_bracketed (tuple (suc n) ∷ [])) = ok 2
tt_of_args (angle_bracketed (other_arg ∷ [])) = ok 2
tt_of_args (angle_bracketed (a ∷ b ∷ rest)) = panic
tt_of_args other_args = panic

-- The first segment that is called `Result` decides.
unfoldable pub tt_of_segments : List Segment → Result ℕ
tt_of_segments [] = panic
tt_of_segments (seg ∷ segs) =
    if bytes_eq seg.ident (codes "Result") then tt_of_args seg.arguments else tt_of_segments segs

-- `get_function_tt`, with 0 for a method that returns nothing.
unfoldable pub get_function_tt : ReturnType → Result ℕ
unfolding tt_of_segments
get_function_tt default_return = ok 0
get_function_tt (path_return segs) = tt_of_segments segs
get_function_tt other_return = panic

-- The types and the names of the parameters behind the receiver.
unfoldable pub typed_args : List FnArg → Result (List (List ℕ) × List (List ℕ))
typed_args [] = ok ([], [])
typed_args (receiver ∷ args) = typed_args args
typed_args (named name typ ∷ args) = do
  (types, names) ← typed_args args
  ok (typ ∷ types, name ∷ names)
typed_args (patterned typ ∷ args) = panic

abbrev func_info : Method → ℕ → Result FuncInfo
func_info m tag = do
  (types, names) ← typed_args m.inputs
  tt ← get_function_tt m.output
  ok (record {
    tag = tag;
    tt = tt;
    func_name = m.func_name;
    args_type = types;
    inputs = m.inputs;
    input_names = names;
    output = m.output;
  })

abbrev if_tagged : Method → Option ℕ → Result (Option FuncInfo)
if_tagged m none = ok none
if_tagged m (some tag) = if m.is_async then (func_info m tag >>= λ f. ok (some f)) else panic

-- What one item of the trait gives: a method without a tag, and all else, is passed over.
unfoldable pub item_info : TraitItem → Result (Option FuncInfo)
unfolding have_tag get_function_tt typed_args
item_info other_item = ok none
item_info (method m) = have_tag m.tag >>= if_tagged m

abbrev add_info : Option FuncInfo → List FuncInfo → List FuncInfo
add_info none fs = fs
add_info (some f) fs = f ∷ fs

unfoldable pub get_funcs_info : List TraitItem → Result (List FuncInfo)
unfolding item_info
get_funcs_info [] = ok []
get_funcs_info (item ∷ items) = do
  found ← item_info item
  fs ← get_funcs_info items
  ok (add_info found fs)
