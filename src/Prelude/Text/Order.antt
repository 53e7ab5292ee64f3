-- ===== src/Prelude/Text/Order.antt =====
-- The order of texts by their code points, which is that of their UTF-8 (sort.Strings).
use mathlib.Core.Path.{◌≡◌, refl}
use mathlib.Core.Logic.{◌≢◌}
use mathlib.Core.Bool.{Bool, true, false, not}
use mathlib.Core.List.{[], ◌∷◌}
use native.Mathlib.Omega.{arith}
use veriproc.Prelude.Tests.{eqb, ltb, if◌then◌else◌}
use veriproc.Prelude.Text.{Text}

unfoldable pub text_less : Text → Text → Bool
text_less s [] = false
text_less [] (b ∷ t) = true
text_less (a ∷ s) (b ∷ t) = let rest = text_less s t in if eqb a b then rest else ltb a b

pub text_less_trans :
    (r s t : Text) → text_less r s ≡ true → text_less s t ≡ true → text_less r t ≡ true
unfolding text_less
text_less_trans r s [] h k = absurd (ground arith)
text_less_trans r [] (c ∷ t) h k = absurd (ground arith)
text_less_trans [] (b ∷ s) (c ∷ t) h k = refl
text_less_trans (a ∷ r) (b ∷ s) (c ∷ t) h k = ground (arith, text_less_trans r s t)

-- Of two different texts exactly one comes first.
pub text_less_other : (s t : Text) → s ≢ t → text_less t s ≡ not (text_less s t)
unfolding text_less
text_less_other [] [] ne = absurd (ne refl)
text_less_other [] (b ∷ t) ne = refl
text_less_other (a ∷ s) [] ne = refl
text_less_other (a ∷ s) (b ∷ t) ne = ground (arith, text_less_other s t)
