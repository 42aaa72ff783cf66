-- ===== src/Wire/Tests.antt =====
-- The frames at concrete bytes.
use rust_netx.Prelude.{◌≡◌, refl, [], ◌∷◌, ◌++◌, codes}
use rust_netx.Wire.Frame.{frame, patch_len}
use rust_netx.Wire.Frame.Laws.{patch_len-frame}
use rust_netx.Wire.LittleEndian.{plain, le}

-- A frame of three bytes.
frame_bytes : frame plain (1 ∷ 2 ∷ 3 ∷ []) ≡ 7 ∷ 0 ∷ 0 ∷ 0 ∷ 1 ∷ 2 ∷ 3 ∷ []
unfolding frame le
frame_bytes = refl

patch_len-frame_example : patch_len plain (plain.int 4 0 ++ codes "ab") ≡ frame plain (codes "ab")
patch_len-frame_example = patch_len-frame plain (codes "ab")
