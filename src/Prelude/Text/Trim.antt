-- ===== src/Prelude/Text/Trim.antt =====
-- A trimmed text begins and ends with a character that is no space.
use Prim.Native.Nat.{ℕ, ◌≤◌}
use mathlib.Core.Path.{◌≡◌, refl, ap, ◌∙◌}
use mathlib.Core.Logic.{◌≢◌, inl, inr}
use mathlib.Core.Bool.{Bool, true, false, ◌&&◌}
use mathlib.Core.List.{[], ◌∷◌, ◌++◌}
use native.Mathlib.Omega.{arith}
use veriproc.Prelude.Lists.{length}
use veriproc.Prelude.Tests.{Bool-cases}
use veriproc.Prelude.Text.{Text, is_space, trim_left, trim_right, trim_space, keep_ink}

pub record IsTrimmed (s : Text) : Type 0 where
  pub left : trim_left s ≡ s
  pub right : trim_right s ≡ s

length-trim_left : (s : Text) → length (trim_left s) ≤ length s
unfolding trim_left
length-trim_left [] = omega arith
length-trim_left (c ∷ s) = ground (arith, length-trim_left s)

-- A text that trimming on the left leaves alone begins with no space.
is_space_first : (c : ℕ) (s : Text) → trim_left (c ∷ s) ≡ c ∷ s → is_space c ≡ false
unfolding trim_left
is_space_first c s h = elim (Bool-cases (is_space c)) [
  | inl blank ↦ absurd (omega (arith, length-trim_left s, ap length (rw blank at h)))
  | inr ink ↦ ink
]

pub trim_left-append : (s t : Text) → s ≢ [] → trim_left s ≡ s → trim_left (s ++ t) ≡ s ++ t
trim_left-append [] t ne h = absurd (ne refl)
trim_left-append (c ∷ s) t ne h = unfold trim_left in ground (arith, is_space_first c s h)

keep_ink-≢ : (c : ℕ) (s : Text) → s ≢ [] → keep_ink c s ≡ c ∷ s
keep_ink-≢ c [] ne = absurd (ne refl)
keep_ink-≢ c (d ∷ s) ne = refl

append-≢ : (s t : Text) → t ≢ [] → (s ++ t) ≢ []
append-≢ [] t ne h = ne h
append-≢ (c ∷ s) t ne h = absurd (ground arith)

trim_right-step : (c : ℕ) (s : Text) → trim_right s ≡ s → s ≢ [] → trim_right (c ∷ s) ≡ c ∷ s
unfolding trim_right
trim_right-step c s h ne = ap (keep_ink c) h ∙ keep_ink-≢ c s ne

pub trim_right-append : (s t : Text) → t ≢ [] → trim_right t ≡ t → trim_right (s ++ t) ≡ s ++ t
trim_right-append [] t ne h = h
trim_right-append (c ∷ s) t ne h =
    trim_right-step c (s ++ t) (trim_right-append s t ne h) (append-≢ s t ne)

unfoldable pub is_blank : Text → Bool
is_blank [] = true
is_blank (c ∷ s) = is_space c && is_blank s

trim_right-is_blank : (s : Text) → is_blank s ≡ true → trim_right s ≡ []
unfolding is_blank trim_right
trim_right-is_blank [] h = refl
trim_right-is_blank (c ∷ s) h = ground (arith, trim_right-is_blank s)

trim_right-∷ :
    (c : ℕ) (s t : Text) → trim_right s ≡ trim_right t → trim_right (c ∷ s) ≡ trim_right (c ∷ t)
unfolding trim_right
trim_right-∷ c s t e = ap (keep_ink c) e

pub trim_right-append_blank : (s t : Text) → is_blank t ≡ true → trim_right (s ++ t) ≡ trim_right s
trim_right-append_blank [] t h = trim_right-is_blank t h ∙ unfold trim_right in refl
trim_right-append_blank (c ∷ s) t h = trim_right-∷ c (s ++ t) s (trim_right-append_blank s t h)

trim_left_idem : (s : Text) → trim_left (trim_left s) ≡ trim_left s
unfolding trim_left
trim_left_idem [] = refl
trim_left_idem (c ∷ s) = ground (arith, trim_left_idem s)

trim_right_idem : (s : Text) → trim_right (trim_right s) ≡ trim_right s
unfolding trim_right
trim_right_idem [] = refl
trim_right_idem (c ∷ s) = kept (trim_right s) (trim_right_idem s)
  where
    kept : (t : Text) → trim_right t ≡ t → trim_right (keep_ink c t) ≡ keep_ink c t
    kept [] h = ground arith
    kept (d ∷ t) h = ap (keep_ink c) h

trim_left-trim_right : (s : Text) → trim_left s ≡ s → trim_left (trim_right s) ≡ trim_right s
unfolding trim_right
trim_left-trim_right [] h = unfold trim_left in refl
trim_left-trim_right (c ∷ s) h = kept (trim_right s)
  where
    kept : (t : Text) → trim_left (keep_ink c t) ≡ keep_ink c t
    kept [] = unfold trim_left in ground (arith, is_space_first c s h)
    kept (d ∷ t) = unfold trim_left in ground (arith, is_space_first c s h)

pub IsTrimmed-trim_space : (s : Text) → IsTrimmed (trim_space s)
IsTrimmed-trim_space s = record {
  left = trim_left-trim_right (trim_left s) (trim_left_idem s);
  right = trim_right_idem (trim_left s);
}

pub trim_space-IsTrimmed : (s : Text) → IsTrimmed s → trim_space s ≡ s
trim_space-IsTrimmed s h = ap trim_right h.left ∙ h.right
