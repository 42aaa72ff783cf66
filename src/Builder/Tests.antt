-- ===== src/Builder/Tests.antt =====
-- A concrete trait, read and generated.
use rust_netx.Prelude.{Bool, bytes_eq, ℕ, ◌≡◌, refl, true, some, List, [], ◌∷◌, codes}
use rust_netx.Wire.{ok, panic}
use rust_netx.Builder.{
  int_lit, path, tuple, other_arg, angle_bracketed, path_return, receiver, named, Method, method,
  other_item, TraitItem, FuncInfo, get_funcs_info, connect_tag,
}
use rust_netx.Builder.Generated.Expansion.{build_client, build_server, controller, caller}
use rust_netx.Builder.Generated.{call_checkrun, call_value, peer_checkrun, peer_value}

-- `#[tag(connect)] async fn connect(&self) -> Result<()>;` and
-- `#[tag(5)] async fn add(&self, a: u8, b: u8) -> Result<u8>;`, with an item that is no method.
abbrev u8 : List ℕ
u8 = codes "u8"

abbrev unit_method : Method
unit_method = record {
  tag = some (path (codes "connect" ∷ []));
  is_async = true;
  func_name = codes "connect";
  inputs = receiver ∷ [];
  output =
      path_return
        (record { ident = codes "Result"; arguments = angle_bracketed (tuple 0 ∷ []) } ∷ []);
}

abbrev add_method : Method
add_method = record {
  tag = some (int_lit (some 5));
  is_async = true;
  func_name = codes "add";
  inputs = receiver ∷ named (codes "a") u8 ∷ named (codes "b") u8 ∷ [];
  output =
      path_return
        (record { ident = codes "Result"; arguments = angle_bracketed (other_arg ∷ []) } ∷ []);
}

abbrev a_trait : List TraitItem
a_trait = method unit_method ∷ other_item ∷ method add_method ∷ []

abbrev info_of : Method → ℕ → ℕ → List (List ℕ) → List (List ℕ) → FuncInfo
info_of m tag tt types names = record {
  tag = tag;
  tt = tt;
  func_name = m.func_name;
  args_type = types;
  inputs = m.inputs;
  input_names = names;
  output = m.output;
}

abbrev add_info : FuncInfo
add_info = info_of add_method 5 2 (u8 ∷ u8 ∷ []) (codes "a" ∷ codes "b" ∷ [])

abbrev infos : List FuncInfo
infos = info_of unit_method connect_tag 1 [] [] ∷ add_info ∷ []

a_trait_read : get_funcs_info a_trait ≡ ok infos
unfolding get_funcs_info
a_trait_read = refl

abbrev is_impl : List ℕ → Bool
is_impl name = bytes_eq name (codes "Impl")

builds_client :
    (build_client is_impl [] a_trait ≡ ok (caller (call_checkrun ∷ call_value ∷ [])))
    × (build_client is_impl (codes "Impl") a_trait ≡ ok (controller (codes "Impl") infos))
unfolding build_client
builds_client = (refl, refl)

builds_server :
    (build_server is_impl [] a_trait ≡ ok (caller (peer_checkrun ∷ peer_value ∷ [])))
    × (build_server is_impl (codes "a b") a_trait ≡ panic)
unfolding build_server
builds_server = (refl, refl)
