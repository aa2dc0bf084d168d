-- ===== src/Base/Order.antt =====
-- The order of texts is total, and so sorting does not depend on the order of the input.
use Prim.Native.Char.{code}
use Prim.Native.String.{String, [], ◌∷◌}
use mathlib.Core.Path.{◌≡◌, refl, ap₂}
use mathlib.Core.Logic.{◌⊎◌, inl, inr}
use mathlib.Core.Bool.{true}
use native.Mathlib.Omega.{arith}
use text.Mathlib.TextEquality.{Char-path}
use package.bigbang_operator.Base.Text.{text_le}

pub text_le_total : (s t : String) → (text_le s t ≡ true) ⊎ (text_le t s ≡ true)
unfolding text_le
text_le_total [] t = inl refl
text_le_total (c ∷ s) [] = inr refl
text_le_total (c ∷ s) (d ∷ t) = ground (arith, text_le_total s t)

pub text_le_antisymm : (s t : String) → text_le s t ≡ true → text_le t s ≡ true → s ≡ t
unfolding text_le
text_le_antisymm [] [] p q = refl
text_le_antisymm [] (d ∷ t) p q = ground arith
text_le_antisymm (c ∷ s) [] p q = ground arith
text_le_antisymm (c ∷ s) (d ∷ t) p q =
    let same : code c ≡ code d = ground arith in
    let rest : s ≡ t = ground (arith, text_le_antisymm s t) in ap₂ ◌∷◌ (Char-path c d same) rest

pub text_le_trans : (s t u : String) → text_le s t ≡ true → text_le t u ≡ true → text_le s u ≡ true
unfolding text_le
text_le_trans [] t u p q = refl
text_le_trans (c ∷ s) [] u p q = ground arith
text_le_trans (c ∷ s) (d ∷ t) [] p q = ground arith
text_le_trans (c ∷ s) (d ∷ t) (e ∷ u) p q = ground (arith, text_le_trans s t u)
