-- ===== src/Prelude/Text/Codes.antt =====
-- The code points of joined texts.
use Prim.Native.Char.{code}
use Prim.Native.String
use Prim.Native.String.{String}
use Prim.Native.String.append
use mathlib.Core.Path.{◌≡◌, ap, ◌∙◌}
use mathlib.Core.List.{◌∷◌, ◌++◌}
use veriproc.Prelude.Text.{codes}

pub codes-append : (s t : String) → codes (String.◌++◌ s t) ≡ codes s ++ codes t
codes-append String.[] t = ap codes (λ i. append.nil t i)
codes-append (String.◌∷◌ c s) t =
    ap codes (λ i. append.cons c s t i) ∙ ap (◌∷◌ (code c)) (codes-append s t)
