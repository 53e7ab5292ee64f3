-- ===== src/Access/RoundTrip.antt =====
-- Rendering a parsed entry gives a line that parses to the same entry.
pub mod Sound
use veriproc.Prelude.{
  ℕ, suc, Bool, true, false, not, ◌&&◌, ◌||◌, Option, none, some, List, [], ◌∷◌, ◌++◌, eqb, ◌≡◌,
  ◌≢◌, ◌⊎◌, inl, inr, refl, ap, sym, subst, ◌∙◌, arith, if◌then◌else◌, Bool-cases, Option-cases,
}
use mathlib.Core.List.{append_assoc, append-nil}
use veriproc.Prelude.Text.{
  Text, codes, same_text, same_text_iff, has_prefix, drop, cut, trim_space, trim_left, trim_right,
  is_space,
}
use veriproc.Prelude.Text.Split.{
  is_free, is_free-append, cut-append, cut-is_free, is_free-cut-none, is_free-cut,
}
use veriproc.Prelude.Text.Trim.{
  IsTrimmed, IsTrimmed-trim_space, trim_space-IsTrimmed, trim_left-append, trim_right-append,
  trim_right-append_blank, is_blank,
}
use veriproc.Access.{
  Role, reader, operator, Parsed, good, bad, Entry, show_role, parse_role, format, digest_prefix,
  is_digest_field, is_digest_field_valid, token_field_of, check_token, check_role, third_of,
  second_of, parse_body, unlabel, parse_entry, is_hex, is_hex_digit, is_digest_marker,
}

-- What every parsed entry satisfies: its fields are trimmed, and none hides a separator.
pub record IsEntry (e : Entry) : Type 0 where
  pub subject_trimmed : IsTrimmed e.subject
  pub subject_nonempty : e.subject ≢ []
  pub subject_colon : is_free b':' e.subject ≡ true
  pub subject_hash : is_free b'#' e.subject ≡ true
  pub label_trimmed : IsTrimmed e.label
  pub token_trimmed : IsTrimmed e.token_field
  pub token_nonempty : e.token_field ≢ []
  pub token_hash : is_free b'#' e.token_field ≡ true
  pub token_reads : token_field_of e.token_field (cut b':' e.token_field) ≡ good e.token_field
  pub token_digest :
      (is_digest_field e.token_field && not (is_digest_field_valid e.token_field)) ≡ false

-- The role and the token with the separators in front of them.
abbrev rest_of : Entry → Text
rest_of e = b':' ∷ (show_role e.role ++ (b':' ∷ e.token_field))

abbrev line_of : Entry → Text
line_of e = e.subject ++ rest_of e

same_text-≢ : (s t : Text) → s ≢ t → same_text s t ≡ false
same_text-≢ s t ne = elim (Bool-cases (same_text s t)) [
  | inl same ↦ absurd (ne ((same_text_iff s t).0 same))
  | inr other ↦ other
]

parse_role-show_role : (r : Role) → parse_role (trim_space (show_role r)) ≡ good r
unfolding parse_role same_text trim_left trim_right is_space
parse_role-show_role reader = refl
parse_role-show_role operator = refl

cut-show_role : (r : Role) (s : Text) → cut b':' (show_role r ++ (b':' ∷ s)) ≡ some (show_role r, s)
unfolding is_free
cut-show_role reader s = cut-append b':' (show_role reader) s refl
cut-show_role operator s = cut-append b':' (show_role operator) s refl

check_token-IsEntry :
    (e : Entry) → IsEntry e → check_token e.subject e.role e.label (good e.token_field) ≡ good e
unfolding check_token
check_token-IsEntry e h =
    rw
      (
        trim_space-IsTrimmed e.token_field h.token_trimmed,
        same_text-≢ e.token_field [] h.token_nonempty,
        h.token_digest,
      )
      refl

append_colon-≢ : (s t : Text) → (s ++ (b':' ∷ t)) ≢ []
append_colon-≢ [] t h = absurd (ground arith)
append_colon-≢ (c ∷ s) t h = absurd (ground arith)

parse_body-line_of : (e : Entry) → IsEntry e → parse_body (line_of e) e.label ≡ good e
unfolding parse_body check_role
parse_body-line_of e h =
    rw
      (
        same_text-≢ (line_of e) []
            (append_colon-≢ e.subject (show_role e.role ++ (b':' ∷ e.token_field))),
        cut-append b':' e.subject (show_role e.role ++ (b':' ∷ e.token_field)) h.subject_colon,
        cut-show_role e.role e.token_field,
        trim_space-IsTrimmed e.subject h.subject_trimmed,
        same_text-≢ e.subject [] h.subject_nonempty,
        parse_role-show_role e.role,
        h.token_reads,
        check_token-IsEntry e h,
      )
      refl

role-is_free :
    (r : Role) (t : Text)
    → is_free b'#' t ≡ true
    → is_free b'#' (b':' ∷ (show_role r ++ (b':' ∷ t))) ≡ true
unfolding is_free
role-is_free reader t h = h
role-is_free operator t h = h

line_of-is_free : (e : Entry) → IsEntry e → is_free b'#' (line_of e) ≡ true
line_of-is_free e h =
    is_free-append b'#' e.subject (rest_of e) h.subject_hash
      (role-is_free e.role e.token_field h.token_hash)

trim_left-line_of : (e : Entry) → IsEntry e → trim_left (line_of e) ≡ line_of e
trim_left-line_of e h =
    trim_left-append e.subject (rest_of e) h.subject_nonempty h.subject_trimmed.left

trim_right-role :
    (s : Text) (r : Role) (t : Text)
    → t ≢ []
    → trim_right t ≡ t
    → trim_right (s ++ (b':' ∷ (show_role r ++ (b':' ∷ t))))
      ≡ s ++ (b':' ∷ (show_role r ++ (b':' ∷ t)))
trim_right-role s reader t ne h =
    subst (λ x. trim_right x ≡ x) (append_assoc s (codes ":reader:") t)
      (trim_right-append (s ++ codes ":reader:") t ne h)
trim_right-role s operator t ne h =
    subst (λ x. trim_right x ≡ x) (append_assoc s (codes ":operator:") t)
      (trim_right-append (s ++ codes ":operator:") t ne h)

-- What stands in front of the label, with the two spaces that Format writes.
trim_space-line_of : (e : Entry) → IsEntry e → trim_space (line_of e ++ codes "  ") ≡ line_of e
trim_space-line_of e h =
    ap trim_right (
      trim_left-append (line_of e) (codes "  ")
        (append_colon-≢ e.subject (show_role e.role ++ (b':' ∷ e.token_field)))
        (trim_left-line_of e h))
    ∙ trim_right-append_blank (line_of e) (codes "  ") (unfold is_blank is_space in refl)
    ∙ trim_right-role e.subject e.role e.token_field h.token_nonempty h.token_trimmed.right

trim_space-space : (s : Text) → trim_space (b' ' ∷ s) ≡ trim_space s
unfolding trim_left is_space
trim_space-space s = refl

module _ (e : Entry) (h : IsEntry e) where
  unlabelled : unlabel (line_of e) (cut b'#' (line_of e)) ≡ parse_body (line_of e) []
  unlabelled = rw (cut-is_free b'#' (line_of e) (line_of-is_free e h)) refl

  labelled :
      unlabel
        (line_of e ++ (codes "  # " ++ e.label))
        (cut b'#' (line_of e ++ (codes "  # " ++ e.label)))
      ≡ parse_body (line_of e) e.label
  labelled =
      rw
        (
          ← append_assoc (line_of e) (codes "  ") (b'#' ∷ b' ' ∷ e.label),
          cut-append b'#' (line_of e ++ codes "  ") (b' ' ∷ e.label) (
              is_free-append b'#' (line_of e) (codes "  ") (line_of-is_free e h)
                (unfold is_free in refl)),
          trim_space-line_of e h,
          trim_space-space e.label,
          trim_space-IsTrimmed e.label h.label_trimmed,
        )
        refl

  pub parse_entry-format_entry : parse_entry (format e) ≡ good e
  unfolding parse_entry format
  parse_entry-format_entry = elim (Bool-cases (same_text e.label [])) [
    | inl empty ↦
        rw empty (unlabelled ∙ rw (← (same_text_iff e.label []).0 empty) (parse_body-line_of e h))
    | inr named ↦ rw named (labelled ∙ parse_body-line_of e h)
  ]
