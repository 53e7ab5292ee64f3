-- ===== src/Access/File/Digests.antt =====
-- The index of digests: a token finds the entry that it authenticates, and no other.
use veriproc.Prelude.{
  ℕ, zero, suc, false, Option, none, some, List, [], ◌∷◌, ◌++◌, ◌≡◌, ◌≢◌, ◌⊎◌, ◌<◌, ◌↔◌, inl, inr,
  refl, ap, sym, subst, ◌∙◌, arith, is_some, Bool-cases,
}
use veriproc.Prelude.Lists.{length}
use veriproc.Prelude.Text.{Text, same_text, same_text_iff, same_text_refl}
use veriproc.Access.{Entry, digest_of}
use veriproc.Access.File.Indexed.{
  skipped, indexed, Accepts, stop, more, parse_from-Accepts, get_elem?-append, get_elem?_last,
}
use veriproc.Access.{digest}
use veriproc.Access.File.{
  lookup, entry_at, Profile, valid, get_elem?, index_entry, carry_line, parse_lines, parse,
  empty_profile,
}

some_inj : {A : Type 0} {a b : A} → some a ≡ some b → a ≡ b
some_inj e = cc e

get_elem?_below :
    {A : Type 0} (xs : List A) (pos : ℕ) {a : A} → get_elem? xs pos ≡ some a → pos < length xs
get_elem?_below [] pos h = absurd (ground arith)
get_elem?_below (x ∷ xs) zero h = omega arith
get_elem?_below (x ∷ xs) (suc pos) h = omega (arith, get_elem?_below xs pos h)

-- The last position, or one before it.
get_elem?-snoc :
    {A : Type 0} (xs : List A) (y : A) (pos : ℕ) {a : A}
    → get_elem? (xs ++ y ∷ []) pos ≡ some a
    → (get_elem? xs pos ≡ some a) ⊎ ((pos ≡ length xs) × (y ≡ a))
get_elem?-snoc [] y zero h = inr (refl, some_inj h)
get_elem?-snoc [] y (suc pos) h = absurd (ground arith)
get_elem?-snoc (x ∷ xs) y zero h = inl h
get_elem?-snoc (x ∷ xs) y (suc pos) h = elim (get_elem?-snoc xs y pos h) [
  | inl before ↦ inl before
  | inr (e, same) ↦ inr (ap suc e, same)
]

module _ (sha256_hex : Text → Text) where
  -- Each digest leads to an entry with it, and each entry is found under its digest.
  record IsFound (p : Profile) : Type 0 where
    leads :
        (t : Text) (pos : ℕ)
        → p.digests t ≡ some pos
        → (e : Entry) × (get_elem? p.entries pos ≡ some e) × (digest_of sha256_hex e ≡ t)
    found :
        (pos : ℕ) (e : Entry)
        → get_elem? p.entries pos ≡ some e
        → p.digests (digest_of sha256_hex e) ≡ some pos

  IsFound-empty_profile : IsFound empty_profile
  IsFound-empty_profile = record {
    leads = λ t pos h. absurd (ground arith);
    found = λ pos e h. absurd (ground arith);
  }

  IsFound-carry_line : (line : Text) (p : Profile) → IsFound p → IsFound (carry_line line p)
  unfolding carry_line
  IsFound-carry_line line p h = record { leads = h.leads; found = h.found }

  module _ (i : ℕ) (line : Text) (e : Entry) (p : Profile) (h : IsFound p) where
    abbrev longer : Profile
    longer = index_entry sha256_hex i line e p

    leads-index_entry :
        (t : Text) (pos : ℕ)
        → longer.digests t ≡ some pos
        → (f : Entry) × (get_elem? longer.entries pos ≡ some f) × (digest_of sha256_hex f ≡ t)
    unfolding index_entry
    leads-index_entry t pos at = elim (Bool-cases (same_text (digest_of sha256_hex e) t)) [
      | inl same ↦ (
        e,
        subst (λ n. get_elem? (p.entries ++ e ∷ []) n ≡ some e) (some_inj (rw same at at))
            (get_elem?_last p.entries e),
        (same_text_iff (digest_of sha256_hex e) t).0 same,
      )
      | inr other ↦
          let (f, there, d) = h.leads t pos (rw other at at) in
          (f, get_elem?-append p.entries e pos (get_elem?_below p.entries pos there) ∙ there, d)
    ]

    fresh_other :
        (f : Entry) (pos : ℕ)
        → is_some (p.digests (digest_of sha256_hex e)) ≡ false
        → p.digests (digest_of sha256_hex f) ≡ some pos
        → same_text (digest_of sha256_hex e) (digest_of sha256_hex f) ≡ false
    fresh_other f pos fresh at =
        elim (Bool-cases (same_text (digest_of sha256_hex e) (digest_of sha256_hex f))) [
          | inl same ↦ absurd (
              clash
                (subst (λ d. is_some (p.digests d) ≡ false)
                  ((same_text_iff (digest_of sha256_hex e) (digest_of sha256_hex f)).0 same) fresh)
                at)
          | inr other ↦ other
        ]
      where
        clash : {o : Option ℕ} → is_some o ≡ false → o ≢ some pos
        clash {o = none} h k = absurd (ground arith)
        clash {o = some x} h k = absurd (ground arith)

    found-index_entry :
        (pos : ℕ) (f : Entry)
        → is_some (p.digests (digest_of sha256_hex e)) ≡ false
        → get_elem? longer.entries pos ≡ some f
        → longer.digests (digest_of sha256_hex f) ≡ some pos
    unfolding index_entry
    found-index_entry pos f fresh at = elim (get_elem?-snoc p.entries e pos at) [
      | inl before ↦ let there = h.found pos f before in rw (fresh_other f pos fresh there) there
      | inr (last, same) ↦ rw (← same, same_text_refl (digest_of sha256_hex e), last) refl
    ]

    IsFound-index_entry : is_some (p.digests (digest_of sha256_hex e)) ≡ false → IsFound longer
    IsFound-index_entry fresh = record {
      leads = leads-index_entry;
      found = λ pos f. found-index_entry pos f fresh;
    }

  IsFound-Accepts :
      {last : Profile} (i : ℕ) (rest : List Text) (p : Profile)
      → Accepts sha256_hex last i rest p
      → IsFound p
      → IsFound last
  IsFound-Accepts i [] p stop h = h
  IsFound-Accepts i (line ∷ rest) p (more {q = q} (skipped s) steps) h =
      IsFound-Accepts (suc i) rest q steps (IsFound-carry_line line p h)
  IsFound-Accepts i (line ∷ rest) p (more {q = q} (indexed e s r d) steps) h =
      IsFound-Accepts (suc i) rest q steps (IsFound-index_entry i line e p h d)

  -- A token looks up an entry of a valid access profile just when that entry stands in the
  -- profile with the digest of the token, so no token authenticates as another subject.
  pub lookup_iff :
      (content : Text) (p : Profile) (token : Text) (e : Entry)
      → parse sha256_hex content ≡ valid p
      → (lookup sha256_hex p token ≡ some e) ↔ (
          (pos : ℕ) × (get_elem? p.entries pos ≡ some e)
          × (digest_of sha256_hex e ≡ digest sha256_hex token))
  unfolding parse parse_lines lookup
  lookup_iff content p token e h =
      let inv =
        IsFound-Accepts 0 _ empty_profile (parse_from-Accepts sha256_hex 0 _ empty_profile p h)
          IsFound-empty_profile in
      (
        λ found. to_entry inv (p.digests (digest sha256_hex token)) refl found,
        λ (pos, there, d). rw (← d, inv.found pos e there) there,
      )
    where
      to_entry :
          IsFound p
          → (o : Option ℕ) → p.digests (digest sha256_hex token) ≡ o
          → entry_at p.entries o ≡ some e
          → (pos : ℕ) × (get_elem? p.entries pos ≡ some e)
            × (digest_of sha256_hex e ≡ digest sha256_hex token)
      to_entry inv none at found = absurd (ground arith)
      to_entry inv (some pos) at found =
          let (f, there, d) = inv.leads (digest sha256_hex token) pos at in
          let same : f ≡ e = some_inj (sym there ∙ found) in
          (pos, found, subst (λ g. digest_of sha256_hex g ≡ digest sha256_hex token) same d)
