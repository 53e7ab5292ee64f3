-- ===== src/Access/File/Indexed.antt =====
-- The indexes that parsing builds: positions within the entries, lines below the line reached.
use veriproc.Prelude.{
  ℕ, zero, suc, Bool, true, false, ◌||◌, some, List, [], ◌∷◌, ◌++◌, ◌≡◌, ◌≢◌, ◌⊎◌, ◌<◌, inl, inr,
  refl, sym, subst, arith, if◌then◌else◌, is_some, Bool-cases,
}
use veriproc.Prelude.Lists.{length, length-append, All, All-append}
use veriproc.Prelude.Text.{Text, same_text, trim_space}
use veriproc.Access.{Entry, Parsed, good, bad, parse_entry, digest_of}
use veriproc.Access.File.{
  Profile, Revision, LineError, valid, malformed, get_elem?, points_at, drops, index_entry,
  carry_line, add_parsed, add_line, is_skipped, parse_from, empty_profile,
}

module _ {A : Type 0} where
  pub get_elem?-append :
      (xs : List A) (y : A) (pos : ℕ)
      → pos < length xs
      → get_elem? (xs ++ y ∷ []) pos ≡ get_elem? xs pos
  get_elem?-append [] y pos h = absurd (omega arith)
  get_elem?-append (x ∷ xs) y zero h = refl
  get_elem?-append (x ∷ xs) y (suc pos) h = get_elem?-append xs y pos (omega arith)

  pub get_elem?_last : (xs : List A) (y : A) → get_elem? (xs ++ y ∷ []) (length xs) ≡ some y
  get_elem?_last [] y = refl
  get_elem?_last (x ∷ xs) y = get_elem?_last xs y

abbrev pub AllBelow : ℕ → List ℕ → Type 0
AllBelow n = All (λ k. k < n)

-- A later line does not change what the earlier positions drop.
pub drops_later :
    (lines positions : List ℕ) (y i : ℕ)
    → AllBelow (length lines) positions
    → drops (lines ++ y ∷ []) positions i ≡ drops lines positions i
unfolding drops
drops_later lines [] y i h = refl
drops_later lines (pos ∷ positions) y i h =
    rw (get_elem?-append lines y pos h.0, drops_later lines positions y i h.1) refl

pub drops-append :
    (lines positions : List ℕ) (pos i : ℕ)
    → drops lines (positions ++ pos ∷ []) i
      ≡ (drops lines positions i || points_at (get_elem? lines pos) i)
unfolding drops
drops-append lines [] pos i = ground arith
drops-append lines (q ∷ positions) pos i = ground (arith, drops-append lines positions pos i)

points_at-AllBelow :
    (lines : List ℕ) (pos i : ℕ) → AllBelow i lines → points_at (get_elem? lines pos) i ≡ false
points_at-AllBelow [] pos i h = refl
points_at-AllBelow (j ∷ lines) zero i h = ground arith
points_at-AllBelow (j ∷ lines) (suc pos) i h = points_at-AllBelow lines pos i h.1

pub drops-AllBelow :
    (lines positions : List ℕ) (i : ℕ) → AllBelow i lines → drops lines positions i ≡ false
unfolding drops
drops-AllBelow lines [] i h = refl
drops-AllBelow lines (pos ∷ positions) i h =
    rw (points_at-AllBelow lines pos i h, drops-AllBelow lines positions i h) refl

AllBelow-suc : (i : ℕ) (xs : List ℕ) → AllBelow i xs → AllBelow (suc i) xs
AllBelow-suc i [] h = tt
AllBelow-suc i (x ∷ xs) h = (omega (arith, h.0), AllBelow-suc i xs h.1)

AllBelow-snoc : (i : ℕ) (xs : List ℕ) → AllBelow i xs → AllBelow (suc i) (xs ++ i ∷ [])
AllBelow-snoc i xs h =
    All-append (λ k. k < suc i) xs (i ∷ []) (AllBelow-suc i xs h) (omega arith, tt)

-- The indexes of a profile whose first `i` lines were read.
pub record IsIndexed (i : ℕ) (p : Profile) : Type 0 where
  pub same_length : length p.lines ≡ length p.entries
  pub lines_below : AllBelow i p.lines
  pub positions_below : (s : Text) → AllBelow (length p.entries) (p.subjects s)

pub IsIndexed-empty_profile : IsIndexed 0 empty_profile
IsIndexed-empty_profile = record { same_length = refl; lines_below = tt; positions_below = λ s. tt }

IsIndexed-carry_line :
    (i : ℕ) (line : Text) (p : Profile) → IsIndexed i p → IsIndexed (suc i) (carry_line line p)
unfolding carry_line
IsIndexed-carry_line i line p h = record {
  same_length = h.same_length;
  lines_below = AllBelow-suc i p.lines h.lines_below;
  positions_below = h.positions_below;
}

Revision-cases :
    (r : Revision) → ((p : Profile) × (r ≡ valid p)) ⊎ ((e : LineError) × (r ≡ malformed e))
Revision-cases (valid p) = inl (p, refl)
Revision-cases (malformed e) = inr (e, refl)

-- What a line that is accepted does to the profile.
pub data Accepted (sha256_hex : Text → Text) (i : ℕ) (line : Text) (p : Profile)
    : Profile → Type 0 where
  skipped : is_skipped line ≡ true → Accepted sha256_hex i line p (carry_line line p)
  indexed :
      (e : Entry)
      → is_skipped line ≡ false
      → parse_entry (trim_space line) ≡ good e
      → is_some (p.digests (digest_of sha256_hex e)) ≡ false
      → Accepted sha256_hex i line p (index_entry sha256_hex i line e p)

module _ (sha256_hex : Text → Text) where
  IsIndexed-index_entry :
      (i : ℕ) (line : Text) (e : Entry) (p : Profile)
      → IsIndexed i p
      → IsIndexed (suc i) (index_entry sha256_hex i line e p)
  unfolding index_entry
  IsIndexed-index_entry i line e p h = record {
    same_length =
        omega
          (arith, h.same_length, length-append p.lines (i ∷ []), length-append p.entries (e ∷ []));
    lines_below = AllBelow-snoc i p.lines h.lines_below;
    positions_below = λ s.
        subst
          (λ n.
            AllBelow n (
              if same_text e.subject s
              then p.subjects s ++ length p.entries ∷ []
              else p.subjects s))
          (omega (arith, length-append p.entries (e ∷ []))) (below (same_text e.subject s) s);
  }
    where
      below :
          (b : Bool) (s : Text)
          → AllBelow
              (suc (length p.entries))
              (if b then p.subjects s ++ length p.entries ∷ [] else p.subjects s)
      below true s = AllBelow-snoc (length p.entries) (p.subjects s) (h.positions_below s)
      below false s = AllBelow-suc (length p.entries) (p.subjects s) (h.positions_below s)

  pub IsIndexed-Accepted :
      (i : ℕ) (line : Text) {p q : Profile}
      → Accepted sha256_hex i line p q
      → IsIndexed i p
      → IsIndexed (suc i) q
  IsIndexed-Accepted i line {p} (skipped s) h = IsIndexed-carry_line i line p h
  IsIndexed-Accepted i line {p} (indexed e s r d) h = IsIndexed-index_entry i line e p h

  add_parsed-valid :
      (i : ℕ) (line : Text) (p q : Profile) (x : Parsed Entry)
      → is_skipped line ≡ false
      → parse_entry (trim_space line) ≡ x
      → add_parsed sha256_hex i line p x ≡ valid q
      → Accepted sha256_hex i line p q
  unfolding add_parsed
  add_parsed-valid i line p q (bad why) s r h = absurd (ground arith)
  add_parsed-valid i line p q (good e) s r h =
      elim (Bool-cases (is_some (p.digests (digest_of sha256_hex e)))) [
        | inl known ↦ absurd (malformed-≢ (rw known at h))
        | inr fresh ↦
            subst (Accepted sha256_hex i line p) (valid_inj (rw fresh at h)) (indexed e s r fresh)
      ]
    where
      malformed-≢ : {l : LineError} → malformed l ≢ valid q
      malformed-≢ e = absurd (ground arith)

      valid_inj : {r : Profile} → valid r ≡ valid q → r ≡ q
      valid_inj e = cc e

  pub add_line-Accepted :
      (i : ℕ) (line : Text) (p q : Profile)
      → add_line sha256_hex i line p ≡ valid q
      → Accepted sha256_hex i line p q
  unfolding add_line
  add_line-Accepted i line p q h = elim (Bool-cases (is_skipped line)) [
    | inl skip ↦ subst (Accepted sha256_hex i line p) (valid_inj (rw skip at h)) (skipped skip)
    | inr carries ↦
        add_parsed-valid i line p q (parse_entry (trim_space line)) carries refl (rw carries at h)
  ]
    where
      valid_inj : {r : Profile} → valid r ≡ valid q → r ≡ q
      valid_inj e = cc e

  -- Accepted again, by a profile that knows no more digests.
  pub add_line-valid :
      (i : ℕ) (line : Text) (p : Profile)
      → is_skipped line ≡ true
      → add_line sha256_hex i line p ≡ valid (carry_line line p)
  unfolding add_line
  add_line-valid i line p s = rw s refl

  pub add_line-indexed :
      (i : ℕ) (line : Text) (e : Entry) (p : Profile)
      → is_skipped line ≡ false
      → parse_entry (trim_space line) ≡ good e
      → is_some (p.digests (digest_of sha256_hex e)) ≡ false
      → add_line sha256_hex i line p ≡ valid (index_entry sha256_hex i line e p)
  unfolding add_line add_parsed
  add_line-indexed i line e p s r d = rw (s, r, d) refl

-- The lines are accepted one after the other.
pub data Accepts (sha256_hex : Text → Text) (last : Profile)
    : ℕ → List Text → Profile → Type 0 where
  stop : {i : ℕ} → Accepts sha256_hex last i [] last
  more :
      {i : ℕ} {line : Text} {rest : List Text} {p q : Profile}
      → Accepted sha256_hex i line p q
      → Accepts sha256_hex last (suc i) rest q
      → Accepts sha256_hex last i (line ∷ rest) p

pub parse_from-Accepts :
    (sha256_hex : Text → Text) (i : ℕ) (rest : List Text) (p last : Profile)
    → parse_from sha256_hex i rest p ≡ valid last
    → Accepts sha256_hex last i rest p
unfolding parse_from
parse_from-Accepts sha256_hex i [] p last h =
    subst (λ q. Accepts sha256_hex last i [] q) (sym (valid_inj h)) stop
  where
    valid_inj : valid p ≡ valid last → p ≡ last
    valid_inj e = cc e
parse_from-Accepts sha256_hex i (line ∷ rest) p last h =
    elim (Revision-cases (add_line sha256_hex i line p)) [
      | inl (q, accepted) ↦
          more (add_line-Accepted sha256_hex i line p q accepted)
            (parse_from-Accepts sha256_hex (suc i) rest q last (rw accepted at h))
      | inr (e, rejected) ↦ absurd (malformed-≢ (rw rejected at h))
    ]
  where
    malformed-≢ : {l : LineError} → malformed l ≢ valid last
    malformed-≢ e = absurd (ground arith)
