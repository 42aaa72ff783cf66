-- ===== src/Builder/Generated/Expansion.antt =====
-- `build_client` and `build_server` of netx_builder/src/lib.rs: the two sides that they generate.
use rust_netx.Prelude.{ℕ, Bool, List, [], ◌∷◌, if◌then◌else◌}
use rust_netx.Wire.{Result, ok, panic, ◌>>=◌}
use rust_netx.Builder.{TraitItem, FuncInfo, get_funcs_info}
use rust_netx.Builder.Generated.{Stub, get_impl_func_client, get_impl_func_server}

-- With a controller's name the macro writes that controller's `call`, and without one the methods
-- of a caller.
pub data Expansion : Type 0 where
  controller : List ℕ → List FuncInfo → Expansion
  caller : List Stub → Expansion

-- `is_ident` says which names `format_ident!` takes; it panics on any other.
module _ (is_ident : List ℕ → Bool) where
  abbrev expansion : List ℕ → List FuncInfo → List Stub → Result Expansion
  expansion [] funcs impl_func = ok (caller impl_func)
  expansion (b ∷ bs) funcs impl_func =
      if is_ident (b ∷ bs) then ok (controller (b ∷ bs) funcs) else panic

  unfoldable pub build_client : List ℕ → List TraitItem → Result Expansion
  unfolding get_funcs_info get_impl_func_client
  build_client controller_name items = do
    funcs ← get_funcs_info items
    impl_func ← get_impl_func_client funcs
    expansion controller_name funcs impl_func

  unfoldable pub build_server : List ℕ → List TraitItem → Result Expansion
  unfolding get_funcs_info get_impl_func_server
  build_server controller_name items = do
    funcs ← get_funcs_info items
    impl_func ← get_impl_func_server funcs
    expansion controller_name funcs impl_func
