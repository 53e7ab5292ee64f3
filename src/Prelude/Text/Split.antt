-- ===== src/Prelude/Text/Split.antt =====
-- A text without the separator stands whole in front of a cut, and joining undoes splitting.
use Prim.Native.Nat.{ℕ}
use mathlib.Core.Path.{◌≡◌, refl, ap, subst, ◌∙◌}
use mathlib.Core.Logic.{◌≢◌, inl, inr}
use mathlib.Core.Bool.{Bool, true, false, ◌&&◌, not}
use mathlib.Core.Option.{Option, none, some}
use mathlib.Core.List.{List, [], ◌∷◌, ◌++◌}
use native.Mathlib.Omega.{arith}
use veriproc.Prelude.Tests.{eqb, if◌then◌else◌, Bool-cases}
use veriproc.Prelude.Text.{
  Text, cut, before_too, onto_first, split, join, keep_ink, trim_left, trim_right, trim_space,
}

-- Whether `c` does not occur in the text.
unfoldable pub is_free : ℕ → Text → Bool
is_free c [] = true
is_free c (d ∷ s) = not (eqb d c) && is_free c s

pub is_free-append :
    (c : ℕ) (s t : Text) → is_free c s ≡ true → is_free c t ≡ true → is_free c (s ++ t) ≡ true
unfolding is_free
is_free-append c [] t h k = k
is_free-append c (d ∷ s) t h k = ground (arith, is_free-append c s t)

is_free-append_left : (c : ℕ) (s t : Text) → is_free c (s ++ t) ≡ true → is_free c s ≡ true
unfolding is_free
is_free-append_left c [] t h = refl
is_free-append_left c (d ∷ s) t h = ground (arith, is_free-append_left c s t)

pub cut-append : (c : ℕ) (s t : Text) → is_free c s ≡ true → cut c (s ++ c ∷ t) ≡ some (s, t)
unfolding is_free cut
cut-append c [] t h = ground arith
cut-append c (d ∷ s) t h = ground (arith, cut-append c s t)

pub cut-is_free : (c : ℕ) (s : Text) → is_free c s ≡ true → cut c s ≡ none
unfolding is_free cut
cut-is_free c [] h = refl
cut-is_free c (d ∷ s) h = ground (arith, cut-is_free c s)

pub is_free-cut-none : (c : ℕ) (s : Text) → cut c s ≡ none → is_free c s ≡ true
unfolding is_free cut
is_free-cut-none c [] h = refl
is_free-cut-none c (d ∷ s) h = elim (Bool-cases (eqb d c)) [
  | inl same ↦ absurd (ground (arith, rw same at h))
  | inr other ↦ rest d s other (cut c s) (is_free-cut-none c s) (rw other at h)
]
  where
    rest :
        (d : ℕ) (s : Text)
        → eqb d c ≡ false
        → (o : Option (Text × Text)) → (o ≡ none → is_free c s ≡ true)
        → before_too d o ≡ none
        → (not (eqb d c) && is_free c s) ≡ true
    rest d s e none ih h = ground (arith, ih refl)
    rest d s e (some x) ih h = absurd (ground arith)

pub is_free-cut :
    (c : ℕ) (s before after : Text) → cut c s ≡ some (before, after) → is_free c before ≡ true
unfolding is_free cut
is_free-cut c [] before after h = absurd (ground arith)
is_free-cut c (d ∷ s) before after h = elim (Bool-cases (eqb d c)) [
  | inl same ↦ ground (arith, rw same at h)
  | inr other ↦ rest d s other (cut c s) (is_free-cut c s) before (rw other at h)
]
  where
    rest :
        (d : ℕ) (s : Text)
        → eqb d c ≡ false
        → (o : Option (Text × Text))
        → ((before after : Text) → o ≡ some (before, after) → is_free c before ≡ true)
        → (before : Text) {after : Text} → before_too d o ≡ some (before, after)
        → is_free c before ≡ true
    rest d s e none ih before h = absurd (ground arith)
    rest d s e (some (front, back)) ih before h = ground (arith, ih front back refl)

-- What a cut leaves out is only the separator.
cut-rejoin :
    (c : ℕ) (s before after : Text) → cut c s ≡ some (before, after) → s ≡ before ++ c ∷ after
unfolding cut
cut-rejoin c [] before after h = absurd (ground arith)
cut-rejoin c (d ∷ s) before after h = elim (Bool-cases (eqb d c)) [
  | inl same ↦ ground (arith, rw same at h)
  | inr other ↦ rest (cut c s) (cut-rejoin c s) before after (rw other at h)
]
  where
    rest :
        (o : Option (Text × Text))
        → ((before after : Text) → o ≡ some (before, after) → s ≡ before ++ c ∷ after)
        → (before after : Text) → before_too d o ≡ some (before, after)
        → d ∷ s ≡ before ++ c ∷ after
    rest none ih before after h = absurd (ground arith)
    rest (some (front, back)) ih before after h = ground (arith, ih front back refl)

is_free-append_right : (c : ℕ) (s t : Text) → is_free c (s ++ t) ≡ true → is_free c t ≡ true
unfolding is_free
is_free-append_right c [] t h = h
is_free-append_right c (d ∷ s) t h = ground (arith, is_free-append_right c s t)

is_free-tail : (c d : ℕ) (s : Text) → is_free c (d ∷ s) ≡ true → is_free c s ≡ true
unfolding is_free
is_free-tail c d s h = ground arith

-- Neither side of a cut holds a character that the text does not hold.
pub is_free-cut_parts :
    (c sep : ℕ) (s before after : Text)
    → is_free c s ≡ true
    → cut sep s ≡ some (before, after)
    → (is_free c before ≡ true) × (is_free c after ≡ true)
is_free-cut_parts c sep s before after free h =
    let whole = subst (λ x. is_free c x ≡ true) (cut-rejoin sep s before after h) free in
    (
      is_free-append_left c before (sep ∷ after) whole,
      is_free-tail c sep after (is_free-append_right c before (sep ∷ after) whole),
    )

is_free-trim_left : (c : ℕ) (s : Text) → is_free c s ≡ true → is_free c (trim_left s) ≡ true
unfolding is_free trim_left
is_free-trim_left c [] h = refl
is_free-trim_left c (d ∷ s) h = ground (arith, is_free-trim_left c s)

pub is_free-trim_right : (c : ℕ) (s : Text) → is_free c s ≡ true → is_free c (trim_right s) ≡ true
unfolding is_free trim_right
is_free-trim_right c [] h = refl
is_free-trim_right c (d ∷ s) h =
    kept (trim_right s) (is_free-trim_right c s (ground arith)) (ground arith)
  where
    kept : (t : Text) → is_free c t ≡ true → not (eqb d c) ≡ true → is_free c (keep_ink d t) ≡ true
    kept [] h k = ground arith
    kept (e ∷ t) h k = ground arith

pub is_free-trim_space : (c : ℕ) (s : Text) → is_free c s ≡ true → is_free c (trim_space s) ≡ true
is_free-trim_space c s h = is_free-trim_right c (trim_left s) (is_free-trim_left c s h)

split-≢ : (sep : ℕ) (s : Text) → split sep s ≢ []
unfolding split
split-≢ sep [] h = absurd (ground arith)
split-≢ sep (c ∷ s) h = nonempty (eqb c sep) (split sep s) h
  where
    nonempty : (b : Bool) (parts : List Text) → (if b then [] ∷ parts else onto_first c parts) ≢ []
    nonempty true parts h = absurd (ground arith)
    nonempty false [] h = absurd (ground arith)
    nonempty false (p ∷ ps) h = absurd (ground arith)

join-onto_first :
    (sep c : ℕ) (parts : List Text)
    → parts ≢ []
    → join sep (onto_first c parts) ≡ c ∷ join sep parts
unfolding join
join-onto_first sep c [] h = absurd (h refl)
join-onto_first sep c (p ∷ []) h = refl
join-onto_first sep c (p ∷ q ∷ ps) h = refl

join_break :
    (sep : ℕ) (parts : List Text) → parts ≢ [] → join sep ([] ∷ parts) ≡ sep ∷ join sep parts
unfolding join
join_break sep [] h = absurd (h refl)
join_break sep (p ∷ ps) h = refl

-- Joining the parts of a text with their separator gives the text back.
pub join-split : (sep : ℕ) (s : Text) → join sep (split sep s) ≡ s
unfolding split
join-split sep [] = unfold join in refl
join-split sep (c ∷ s) = elim (Bool-cases (eqb c sep)) [
  | inl same ↦ rw same (join_break sep _ (split-≢ sep s) ∙ ground (arith, join-split sep s))
  | inr other ↦ rw other (join-onto_first sep c _ (split-≢ sep s) ∙ ap (◌∷◌ c) (join-split sep s))
]
