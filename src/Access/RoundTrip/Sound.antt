-- ===== src/Access/RoundTrip/Sound.antt =====
-- What the checks of parseEntry establish about the entry that they let through.
use veriproc.Prelude.{
  Bool, true, false, not, ◌&&◌, Option, none, some, [], ◌∷◌, ◌++◌, ◌≡◌, ◌≢◌, ◌⊎◌, inl, inr, refl,
  sym, subst, arith, if◌then◌else◌, Option-cases,
}
use veriproc.Prelude.Text.{
  Text, codes, same_text, has_prefix, cut, trim_space, trim_left, trim_right, keep_ink, is_space,
}
use veriproc.Prelude.Text.Split.{
  is_free, is_free-append, cut-append, cut-is_free, is_free-cut_parts, is_free-cut-none,
  is_free-cut, is_free-trim_space, is_free-trim_right,
}
use veriproc.Prelude.Text.Trim.{IsTrimmed, IsTrimmed-trim_space}
use veriproc.Access.{
  Role, Flaw, Parsed, good, bad, Entry, parse_role, format, digest_prefix, is_digest_field,
  is_digest_field_valid, token_field_of, check_token, check_role, third_of, second_of, parse_body,
  parse_entry, is_digest_marker,
}
use veriproc.Access.RoundTrip.{IsEntry, parse_entry-format_entry}

-- A check that rejects did not fire where the whole is accepted.
passed :
    {A : Type 0} (b : Bool) (why : Flaw) (x : Parsed A) {a : A}
    → (if b then bad why else x) ≡ good a
    → (b ≡ false) × (x ≡ good a)
passed true why x h = absurd (ground arith)
passed false why x h = (refl, h)

Parsed-cases :
    {A : Type 0} (x : Parsed A) → ((a : A) × (x ≡ good a)) ⊎ ((why : Flaw) × (x ≡ bad why))
Parsed-cases (good a) = inl (a, refl)
Parsed-cases (bad why) = inr (why, refl)

≢-same_text : (s : Text) → same_text s [] ≡ false → s ≢ []
unfolding same_text
≢-same_text [] h e = absurd (ground arith)
≢-same_text (c ∷ s) h e = absurd (ground arith)

trim_space-digest_prefix :
    (d : Text) → trim_space (digest_prefix ++ d) ≡ digest_prefix ++ trim_right d
unfolding trim_left trim_right is_space
trim_space-digest_prefix d = kept (trim_right d)
  where
    kept :
        (t : Text)
        → keep_ink b's' (
            keep_ink b'h'
              (keep_ink b'a' (keep_ink b'2' (keep_ink b'5' (keep_ink b'6' (keep_ink b':' t))))))
          ≡ digest_prefix ++ t
    kept [] = refl
    kept (c ∷ t) = refl

-- A token that reads as itself, and hides no label.
abbrev IsReadBack : Text → Type 0
IsReadBack token =
    (is_free b'#' token ≡ true) × (token_field_of token (cut b':' token) ≡ good token)

IsReadBack-plain :
    (token : Text)
    → is_free b'#' token ≡ true
    → is_free b':' token ≡ true
    → IsReadBack (trim_space token)
unfolding token_field_of
IsReadBack-plain token hash colon = (
  is_free-trim_space b'#' token hash,
  rw (cut-is_free b':' (trim_space token) (is_free-trim_space b':' token colon)) refl,
)

IsReadBack-digest : (d : Text) → is_free b'#' d ≡ true → IsReadBack (digest_prefix ++ d)
unfolding token_field_of is_free has_prefix same_text trim_left trim_right is_space
IsReadBack-digest d hash = (
  is_free-append b'#' digest_prefix d refl hash,
  rw (cut-append b':' (codes "sha256") d refl) refl,
)

good_inj : {A : Type 0} {a b : A} → good a ≡ good b → a ≡ b
good_inj e = cc e

-- The parts of an accepted token field with a marker.
marked :
    (marker digest token : Text)
    → token_field_of [] (some (marker, digest)) ≡ good token
    → digest_prefix ++ digest ≡ token
unfolding token_field_of
marked marker digest token h =
    good_inj (passed_both (is_digest_marker marker) (is_digest_field (digest_prefix ++ digest)) h)
  where
    passed_both :
        (b c : Bool) {x y : Text}
        → (if b then if c then good x else bad Flaw.bad_digest else bad Flaw.token_colon) ≡ good y
        → good x ≡ good y
    passed_both true true e = e
    passed_both true false e = absurd (ground arith)
    passed_both false c e = absurd (ground arith)

IsReadBack-token_field_of :
    (third token : Text)
    → is_free b'#' third ≡ true
    → token_field_of third (cut b':' third) ≡ good token
    → IsReadBack (trim_space token)
unfolding token_field_of
IsReadBack-token_field_of third token free h = elim (Option-cases (cut b':' third)) [
  | inl whole ↦
      let same : third ≡ token = good_inj (rw whole at h) in
      subst (λ t. IsReadBack (trim_space t)) same
        (IsReadBack-plain third free (is_free-cut-none b':' third whole))
  | inr ((marker, d), parts) ↦
      let same : digest_prefix ++ d ≡ token = marked marker d token (rw parts at h) in
      let hash : is_free b'#' d ≡ true =
        (is_free-cut_parts b'#' b':' third marker d free parts).1 in
      subst (λ t. IsReadBack (trim_space t)) same
        (subst IsReadBack (sym (trim_space-digest_prefix d))
          (IsReadBack-digest (trim_right d) (is_free-trim_right b'#' d hash)))
]

-- What the fields in front of the token have shown so far.
record IsFront (subject label : Text) : Type 0 where
  subject_trimmed : IsTrimmed subject
  subject_nonempty : subject ≢ []
  subject_colon : is_free b':' subject ≡ true
  subject_hash : is_free b'#' subject ≡ true
  label_trimmed : IsTrimmed label

module _ (e : Entry) where
  check_token-good :
      (subject label : Text) (role : Role) (raw : Parsed Text)
      → IsFront subject label
      → ((token : Text) → raw ≡ good token → IsReadBack (trim_space token))
      → check_token subject role label raw ≡ good e
      → IsEntry e
  unfolding check_token
  check_token-good subject label role (bad why) front reads h = absurd (ground arith)
  check_token-good subject label role (good token) front reads h =
      let (some_token, h1) = passed (same_text (trim_space token) []) Flaw.no_token _ h in
      let (valid, h2) =
        passed
          (is_digest_field (trim_space token) && not (is_digest_field_valid (trim_space token)))
          Flaw.bad_digest _ h1 in
      let back = reads token refl in
      subst IsEntry (good_inj h2) (record {
        subject_trimmed = front.subject_trimmed;
        subject_nonempty = front.subject_nonempty;
        subject_colon = front.subject_colon;
        subject_hash = front.subject_hash;
        label_trimmed = front.label_trimmed;
        token_trimmed = IsTrimmed-trim_space token;
        token_nonempty = ≢-same_text (trim_space token) some_token;
        token_hash = back.0;
        token_reads = back.1;
        token_digest = valid;
      })

  third_of-good :
      (first label : Text) (more : Option (Text × Text))
      → is_free b':' first ≡ true
      → is_free b'#' first ≡ true
      → IsTrimmed label
      → ((second third : Text) → more ≡ some (second, third) → is_free b'#' third ≡ true)
      → third_of first label more ≡ good e
      → IsEntry e
  unfolding check_role
  third_of-good first label none colon hash trimmed free h = absurd (ground arith)
  third_of-good first label (some (second, third)) colon hash trimmed free h =
      let (some_subject, h1) = passed (same_text (trim_space first) []) Flaw.no_subject _ h in
      elim (Parsed-cases (parse_role (trim_space second))) [
        | inr (why, refused) ↦ absurd (bad-≢ (rw refused at h1))
        | inl (role, accepted) ↦
            check_token-good (trim_space first) label role (token_field_of third (cut b':' third))
              (record {
                subject_trimmed = IsTrimmed-trim_space first;
                subject_nonempty = ≢-same_text (trim_space first) some_subject;
                subject_colon = is_free-trim_space b':' first colon;
                subject_hash = is_free-trim_space b'#' first hash;
                label_trimmed = trimmed;
              })
              (λ token. IsReadBack-token_field_of third token (free second third refl))
              (rw accepted at h1)
      ]
    where
      bad-≢ : {A : Type 0} {a : A} {why : Flaw} → bad why ≢ good a
      bad-≢ e = absurd (ground arith)

  parse_body-good :
      (body label : Text)
      → is_free b'#' body ≡ true
      → IsTrimmed label
      → parse_body body label ≡ good e
      → IsEntry e
  unfolding parse_body
  parse_body-good body label free trimmed h =
      let (some_body, h1) = passed (same_text body []) Flaw.fields _ h in
      elim (Option-cases (cut b':' body)) [
        | inl whole ↦ absurd (bad_fields (rw whole at h1))
        | inr ((first, more), parts) ↦
            let (front, back) = is_free-cut_parts b'#' b':' body first more free parts in
            third_of-good first label (cut b':' more) (is_free-cut b':' body first more parts) front
              trimmed (λ second third e. (is_free-cut_parts b'#' b':' more second third back e).1)
              (rw parts at h1)
      ]
    where
      bad_fields : second_of label none ≢ good e
      bad_fields h = absurd (ground arith)

  parse_entry-IsEntry : (line : Text) → parse_entry line ≡ good e → IsEntry e
  unfolding parse_entry trim_right trim_left
  parse_entry-IsEntry line h = elim (Option-cases (cut b'#' line)) [
    | inl whole ↦
        parse_body-good line [] (is_free-cut-none b'#' line whole) (IsTrimmed-trim_space [])
          (rw whole at h)
    | inr ((body, label), parts) ↦
        parse_body-good (trim_space body) (trim_space label)
          (is_free-trim_space b'#' body (is_free-cut b'#' line body label parts))
          (IsTrimmed-trim_space label) (rw parts at h)
  ]

  -- However a line of an access profile was written, rendering the entry that it parses to and
  -- parsing the rendered line gives the same entry.
  pub parse_entry-format :
      (line : Text) → parse_entry line ≡ good e → parse_entry (format e) ≡ good e
  parse_entry-format line h = parse_entry-format_entry e (parse_entry-IsEntry line h)
