-- ===== src/Builder/Generated/OneByte.antt =====
-- Values of one byte, for runs of the generated code of netx_builder/src/lib.rs at concrete traits.
use rust_netx.Prelude.{ℕ, ◌≡◌, refl, List, [], ◌∷◌, ◌++◌}
use rust_netx.Wire.{Result, ok, panic}
use rust_netx.Builder.Generated.{Pack}

abbrev pack : ℕ → Result (List ℕ)
pack v = ok (v ∷ [])

abbrev unpack : List ℕ → List ℕ → Result (ℕ × List ℕ)
unpack typ [] = panic
unpack typ (v ∷ rest) = ok (v, rest)

pub unpack-pack :
    (v : ℕ) (typ bs rest : List ℕ)
    → Unit {0}
    → pack v ≡ ok bs
    → unpack typ (bs ++ rest) ≡ ok (v, rest)
unpack-pack v typ bs rest h e = let q : v ∷ [] ≡ bs = cc e in rw⁻¹ q refl

abbrev pub one_byte : Pack ℕ
one_byte = record {
  HasType = λ v typ. Unit {0};
  pack = pack;
  unpack = unpack;
  unpack-pack = unpack-pack;
}
