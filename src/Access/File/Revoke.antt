-- ===== src/Access/File/Revoke.antt =====
-- Revoking a subject parses the file again without the lines of that subject.
use veriproc.Prelude.{
  ℕ, suc, Bool, true, false, not, ◌&&◌, ◌||◌, List, [], ◌∷◌, ◌++◌, eqb, ◌≡◌, ◌<◌, inl, inr, refl,
  ap, sym, ◌∙◌, arith, if◌then◌else◌, is_some, Bool-cases,
}
use mathlib.Core.List.{append-nil}
use veriproc.Prelude.Lists.{length, All}
use veriproc.Prelude.Text.{Text, same_text}
use veriproc.Access.{Entry, digest_of}
use veriproc.Access.File.Indexed.{
  IsIndexed, IsIndexed-empty_profile, Accepts, stop, more, parse_from-Accepts, IsIndexed-Accepted,
  Accepted, skipped, indexed, add_line-valid, add_line-indexed, drops_later, drops-append,
  drops-AllBelow, get_elem?_last,
}
use veriproc.Access.File.Texts.{texts-Accepts}
use veriproc.Access.File.{
  has_subject, Profile, valid, is_empty, drops, keep_lines, index_entry, carry_line, add_line,
  parse_from, parse_lines, parse, revoke, rewritten, empty_profile,
}

-- The entries of the other subjects, in order.
unfoldable pub others : Text → List Entry → List Entry
others subject [] = []
others subject (e ∷ es) =
    let rest = others subject es in if same_text e.subject subject then rest else e ∷ rest

others-append : (s : Text) (es fs : List Entry) → others s (es ++ fs) ≡ others s es ++ others s fs
unfolding others
others-append s [] fs = refl
others-append s (e ∷ es) fs = ground (arith, others-append s es fs)

module _ (sha256_hex : Text → Text) (subject : Text) where
  abbrev drops_of : Profile → ℕ → Bool
  drops_of p = drops p.lines (p.subjects subject)

  drops_of-index_entry :
      (i j : ℕ) (line : Text) (e : Entry) (p : Profile)
      → IsIndexed i p
      → drops_of (index_entry sha256_hex i line e p) j
        ≡ (drops_of p j || same_text e.subject subject && eqb i j)
  unfolding index_entry
  drops_of-index_entry i j line e p h = elim (Bool-cases (same_text e.subject subject)) [
    | inl same ↦
        rw
          (
            same,
            drops-append (p.lines ++ i ∷ []) (p.subjects subject) (length p.entries) j,
            drops_later p.lines (p.subjects subject) i j (within h),
            ← h.same_length,
            get_elem?_last p.lines i,
          )
          refl
    | inr other ↦ rw (other, drops_later p.lines (p.subjects subject) i j (within h)) (ground arith)
  ]
    where
      within : IsIndexed i p → All (λ k. k < length p.lines) (p.subjects subject)
      within h = rw h.same_length (h.positions_below subject)

  drops_of-Accepted :
      (i j : ℕ) (line : Text) {p q : Profile}
      → Accepted sha256_hex i line p q
      → IsIndexed i p
      → j < i
      → drops_of q j ≡ drops_of p j
  drops_of-Accepted i j line (skipped s) h lt = unfold carry_line in refl
  drops_of-Accepted i j line {p} (indexed e s r d) h lt =
      drops_of-index_entry i j line e p h ∙ ground arith

  -- A later line does not change whether line `j` is dropped.
  drops_of-Accepts :
      {last : Profile} (i j : ℕ) (rest : List Text) (p : Profile)
      → Accepts sha256_hex last i rest p
      → IsIndexed i p
      → j < i
      → drops_of last j ≡ drops_of p j
  drops_of-Accepts i j [] p stop h lt = refl
  drops_of-Accepts i j (line ∷ rest) p (more {q = q} a steps) h lt =
      drops_of-Accepts (suc i) j rest q steps (IsIndexed-Accepted sha256_hex i line a h)
        (omega arith)
      ∙ drops_of-Accepted i j line a h lt

  -- The profile without the subject: its entries are the others', and it knows no more digests.
  record Follows (p q : Profile) : Type 0 where
    entries_of : q.entries ≡ others subject p.entries
    digests_of : (t : Text) → is_some (p.digests t) ≡ false → is_some (q.digests t) ≡ false

  Follows-carry_line :
      (line : Text) {p q : Profile} → Follows p q → Follows (carry_line line p) (carry_line line q)
  unfolding carry_line
  Follows-carry_line line f = record { entries_of = f.entries_of; digests_of = f.digests_of }

  Follows-dropped :
      (i : ℕ) (line : Text) (e : Entry) {p q : Profile}
      → same_text e.subject subject ≡ true
      → Follows p q
      → Follows (index_entry sha256_hex i line e p) q
  unfolding index_entry
  Follows-dropped i line e {p} {q} same f = record {
    entries_of =
        f.entries_of
        ∙ sym (append-nil (others subject p.entries))
        ∙ sym (
            others-append subject p.entries (e ∷ [])
            ∙ ap (◌++◌ (others subject p.entries)) (unfold others in rw same refl));
    digests_of = λ t absent. f.digests_of t (ground arith);
  }

  Follows-kept :
      (i k : ℕ) (line : Text) (e : Entry) {p q : Profile}
      → same_text e.subject subject ≡ false
      → Follows p q
      → Follows (index_entry sha256_hex i line e p) (index_entry sha256_hex k line e q)
  unfolding index_entry
  Follows-kept i k line e {p} {q} other f = record {
    entries_of = rw f.entries_of (
        sym (
          others-append subject p.entries (e ∷ [])
          ∙ ap (◌++◌ (others subject p.entries)) (unfold others in rw other refl)));
    digests_of = λ t absent. ground (arith, f.digests_of t);
  }

  keep_lines-kept :
      (dropped : ℕ → Bool) (i : ℕ) (line : Text) (rest : List Text)
      → dropped i ≡ false
      → keep_lines dropped i (line ∷ rest) ≡ line ∷ keep_lines dropped (suc i) rest
  unfolding keep_lines
  keep_lines-kept dropped i line rest h = rw h refl

  keep_lines-dropped :
      (dropped : ℕ → Bool) (i : ℕ) (line : Text) (rest : List Text)
      → dropped i ≡ true
      → keep_lines dropped i (line ∷ rest) ≡ keep_lines dropped (suc i) rest
  unfolding keep_lines
  keep_lines-dropped dropped i line rest h = rw h refl

  abbrev Reparsed : Profile → List Text → ℕ → Profile → Type 0
  Reparsed last kept k q =
      (r : Profile) × (parse_from sha256_hex k kept q ≡ valid r) × Follows last r

  parse_from-step :
      (k : ℕ) (line : Text) (rest : List Text) (q r : Profile)
      → add_line sha256_hex k line q ≡ valid r
      → parse_from sha256_hex k (line ∷ rest) q ≡ parse_from sha256_hex (suc k) rest r
  unfolding parse_from
  parse_from-step k line rest q r h = rw h refl

  Reparsed-step :
      {last : Profile} (k : ℕ) (line : Text) (kept : List Text) (q r : Profile)
      → add_line sha256_hex k line q ≡ valid r
      → Reparsed last kept (suc k) r
      → Reparsed last (line ∷ kept) k q
  Reparsed-step k line kept q r h (x, e, f) = (x, parse_from-step k line kept q r h ∙ e, f)

  -- Parsing what is kept of the rest succeeds, from a profile that follows the one before.
  parse_from-keep_lines :
      {last : Profile} (i k : ℕ) (rest : List Text) (p q : Profile)
      → Accepts sha256_hex last i rest p
      → IsIndexed i p
      → Follows p q
      → Reparsed last (keep_lines (drops_of last) i rest) k q
  parse_from-keep_lines i k [] p q stop h f = (q, unfold keep_lines parse_from in refl, f)
  parse_from-keep_lines {last} i k (line ∷ rest) p q (more {q = p'} (skipped s) steps) h f =
      let h' = IsIndexed-Accepted sha256_hex i line (skipped s) h in
      let kept : drops_of last i ≡ false =
        drops_of-Accepts (suc i) i rest p' steps h' (omega arith)
        ∙ unfold carry_line in drops-AllBelow p.lines (p.subjects subject) i h.lines_below in
      rw (keep_lines-kept (drops_of last) i line rest kept) (
        Reparsed-step k line _ q (carry_line line q) (add_line-valid sha256_hex k line q s) (
          parse_from-keep_lines (suc i) (suc k) rest p' (carry_line line q) steps h'
            (Follows-carry_line line f)))
  parse_from-keep_lines {last} i k (line ∷ rest) p q (more {q = p'} (indexed e s r d) steps) h f =
      let h' = IsIndexed-Accepted sha256_hex i line (indexed e s r d) h in
      let here : drops_of last i ≡ same_text e.subject subject =
        drops_of-Accepts (suc i) i rest p' steps h' (omega arith)
        ∙ drops_of-index_entry i i line e p h
        ∙ ground (arith, drops-AllBelow p.lines (p.subjects subject) i h.lines_below) in
      elim (Bool-cases (same_text e.subject subject)) [
        | inl same ↦
            rw (keep_lines-dropped (drops_of last) i line rest (here ∙ same))
              (parse_from-keep_lines (suc i) k rest p' q steps h' (Follows-dropped i line e same f))
        | inr other ↦ rw (keep_lines-kept (drops_of last) i line rest (here ∙ other)) (
            Reparsed-step k line _ q _
              (add_line-indexed sha256_hex k line e q s r (f.digests_of (digest_of sha256_hex e) d))
              (parse_from-keep_lines (suc i) (suc k) rest p' _ steps h'
                (Follows-kept i k line e other f)))
      ]

  -- Revoking a subject that a valid access profile holds always succeeds, and the new profile's
  -- entries are those of the other subjects, in their order.
  pub revoke-others :
      (content : Text) (p : Profile)
      → parse sha256_hex content ≡ valid p
      → has_subject p subject ≡ true
      → (q : Profile) × (revoke sha256_hex p subject ≡ rewritten (valid q))
        × (q.entries ≡ others subject p.entries)
  unfolding parse parse_lines revoke has_subject
  revoke-others content p h present =
      let steps = parse_from-Accepts sha256_hex 0 _ empty_profile p h in
      let (q, reparsed, f) =
        parse_from-keep_lines 0 0 _ empty_profile empty_profile steps IsIndexed-empty_profile
          (record { entries_of = unfold others in refl; digests_of = λ t e. refl }) in
      (
        q,
        rw
            (
              present_not (is_empty (p.subjects subject)) present,
              texts-Accepts sha256_hex steps,
              reparsed,
            )
            refl,
        f.entries_of,
      )
    where
      present_not : (b : Bool) → not b ≡ true → b ≡ false
      present_not b e = ground arith
