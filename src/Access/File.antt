-- ===== src/Access/File.antt =====
-- internal/accessprofile/profile.go, the whole file: parsing a revision, its indexes, and the
-- rewrites that add or revoke entries. A map is a function; `sha256_hex` is as in Access.
pub mod Indexed
pub mod Texts
pub mod Revoke
pub mod Digests
use veriproc.Prelude.{
  ℕ, zero, suc, Bool, true, false, not, ◌&&◌, ◌||◌, Option, none, some, List, [], ◌∷◌, ◌++◌, map,
  eqb, if◌then◌else◌, is_some,
}
use veriproc.Prelude.Lists.{length, get_last?}
use veriproc.Prelude.Text.{Text, codes, same_text, has_prefix, split, join, trim_space}
use veriproc.Access.{
  Entry, Flaw, Parsed, good, bad, Role, parse_entry, format, digest_of, digest, subject_absent,
  subject_exists, no_subject, no_token, ambiguous_token,
}

pub record FileLine : Type 0 where
  pub text : Text
  -- the entry that the line carries, as an index into `entries`
  pub entry : Option ℕ

pub record Profile : Type 0 where
  pub raw : List FileLine
  pub entries : List Entry
  pub lines : List ℕ
  pub digests : Text → Option ℕ
  pub subjects : Text → List ℕ

-- LineError: the line, its text and the cause.
pub record LineError : Type 0 where
  pub line : ℕ
  pub text : Text
  pub cause : Flaw

pub data Revision : Type 0 where
  valid : Profile → Revision
  malformed : LineError → Revision

-- Parsing goes on unless a line was malformed.
abbrev pub and_then : Revision → (Profile → Revision) → Revision
and_then (valid p) f = f p
and_then (malformed e) f = malformed e

-- What a rewrite returns: its own refusal, or the revision that the new content parses to.
pub data Rewrite : Type 0 where
  refused : Flaw → Rewrite
  rewritten : Revision → Rewrite

abbrev pub get_elem? {ℓ} : {A : Type ℓ} → List A → ℕ → Option A
get_elem? [] n = none
get_elem? (x ∷ xs) zero = some x
get_elem? (x ∷ xs) (suc n) = get_elem? xs n

abbrev pub empty_profile : Profile
empty_profile = record {
  raw = [];
  entries = [];
  lines = [];
  digests = λ _. none;
  subjects = λ _. [];
}

-- strings.ReplaceAll(data, "\r\n", "\n")
unfoldable pub unix_lines : Text → Text
unix_lines [] = []
unix_lines (c ∷ []) = c ∷ []
unix_lines (c ∷ d ∷ s) =
    let kept = unix_lines (d ∷ s) in
    let dropped = unix_lines s in if eqb c 13 && eqb d 10 then 10 ∷ dropped else c ∷ kept

abbrev pub entry_at : List Entry → Option ℕ → Option Entry
entry_at entries none = none
entry_at entries (some pos) = get_elem? entries pos

abbrev pub texts : Profile → List Text
texts p = map (λ l. l.text) p.raw

-- Profile.Bytes
unfoldable pub bytes : Profile → Text
bytes p = join 10 (texts p)

abbrev pub is_empty {ℓ} : {A : Type ℓ} → List A → Bool
is_empty [] = true
is_empty (x ∷ xs) = false

unfoldable pub has_subject : Profile → Text → Bool
has_subject p subject = not (is_empty (p.subjects subject))

abbrev pub is_newline : Option ℕ → Bool
is_newline none = false
is_newline (some c) = eqb c 10

-- The content with a newline at its end, unless it is empty.
unfoldable pub end_line : Text → Text
end_line content =
    if not (is_empty content) && not (is_newline (get_last? content))
    then content ++ (10 ∷ [])
    else content

abbrev pub points_at : Option ℕ → ℕ → Bool
points_at none i = false
points_at (some j) i = eqb j i

-- drop[i]: line `i` backs one of the entries at `positions`.
unfoldable pub drops : List ℕ → List ℕ → ℕ → Bool
drops lines [] i = false
drops lines (pos ∷ positions) i = points_at (get_elem? lines pos) i || drops lines positions i

unfoldable pub keep_lines : (ℕ → Bool) → ℕ → List Text → List Text
keep_lines dropped i [] = []
keep_lines dropped i (line ∷ rest) =
    let kept = keep_lines dropped (suc i) rest in if dropped i then kept else line ∷ kept

unfoldable pub carry_line : Text → Profile → Profile
carry_line line p = record p { raw = p.raw ++ record { text = line; entry = none } ∷ [] }

unfoldable pub is_skipped : Text → Bool
is_skipped line =
    let trimmed = trim_space line in same_text trimmed [] || has_prefix trimmed (codes "#")

module _ (sha256_hex : Text → Text) where
  -- The entry appended, and indexed by its digest and its subject; `i` is the line's index.
  unfoldable pub index_entry : ℕ → Text → Entry → Profile → Profile
  index_entry i line e p =
      let pos = length p.entries in
      let d = digest_of sha256_hex e in
      record {
        raw = p.raw ++ record { text = line; entry = some pos } ∷ [];
        entries = p.entries ++ e ∷ [];
        lines = p.lines ++ i ∷ [];
        digests = λ t. if same_text d t then some pos else p.digests t;
        subjects = λ s. if same_text e.subject s then p.subjects s ++ pos ∷ [] else p.subjects s;
      }

  -- What one line does to the profile: the body of the second loop of parseLines.
  unfoldable pub add_parsed : ℕ → Text → Profile → Parsed Entry → Revision
  add_parsed i line p (bad why) =
      malformed (record { line = suc i; text = trim_space line; cause = why })
  add_parsed i line p (good e) =
      if is_some (p.digests (digest_of sha256_hex e))
      then malformed (record { line = suc i; text = line; cause = ambiguous_token })
      else valid (index_entry i line e p)

  unfoldable pub add_line : ℕ → Text → Profile → Revision
  add_line i line p =
      if is_skipped line
      then valid (carry_line line p)
      else add_parsed i line p (parse_entry (trim_space line))

  unfoldable pub parse_from : ℕ → List Text → Profile → Revision
  parse_from i [] p = valid p
  parse_from i (line ∷ rest) p = and_then (add_line i line p) (λ q. parse_from (suc i) rest q)

  unfoldable pub parse_lines : List Text → Revision
  parse_lines lines = parse_from 0 lines empty_profile

  -- Parse
  unfoldable pub parse : Text → Revision
  parse content = parse_lines (split 10 (unix_lines content))

  -- Profile.Lookup
  unfoldable pub lookup : Profile → Text → Option Entry
  lookup p token = entry_at p.entries (p.digests (digest sha256_hex token))

  -- Profile.Append. A `Role` is always valid here.
  unfoldable pub append_entry : Profile → Entry → Rewrite
  append_entry p given =
      let e = record given { subject = trim_space given.subject; label = trim_space given.label } in
      if same_text e.subject []
      then refused no_subject
      else if same_text e.token_field []
      then refused no_token
      else if has_subject p e.subject
      then refused subject_exists
      else rewritten (parse (end_line (bytes p) ++ (format e ++ (10 ∷ []))))

  -- Profile.Revoke
  unfoldable pub revoke : Profile → Text → Rewrite
  revoke p subject =
      if is_empty (p.subjects subject)
      then refused subject_absent
      else rewritten (parse_lines (keep_lines (drops p.lines (p.subjects subject)) 0 (texts p)))
