-- ===== src/Access.antt =====
-- internal/accessprofile/profile.go, one line at a time: the roles, an entry, how it is parsed
-- from a line and rendered back. A line is a list of code points. `sha256_hex` stands for
-- crypto/sha256 followed by hex.EncodeToString.
pub mod RoundTrip
pub mod File
use veriproc.Prelude.{
  ℕ, suc, Bool, true, false, not, ◌&&◌, ◌||◌, Option, none, some, List, [], ◌∷◌, ◌++◌, leb, eqb,
  if◌then◌else◌,
}
use veriproc.Prelude.Lists.{length}
use veriproc.Prelude.Text.{Text, codes, same_text, has_prefix, drop, cut, trim_space}

pub data Role : Type 0 where
  reader operator : Role

-- The sentinel errors.
pub data Flaw : Type 0 where
  fields token_colon no_subject bad_role no_token bad_digest : Flaw
  subject_exists subject_absent ambiguous_token : Flaw

-- A result of this package, whose errors are not those of the store.
pub data Parsed {ℓ} (A : Type ℓ) : Type ℓ where
  good : A → Parsed A
  bad : Flaw → Parsed A

pub record Entry : Type 0 where
  pub subject : Text
  pub role : Role
  pub label : Text
  pub token_field : Text

abbrev pub show_role : Role → Text
show_role reader = codes "reader"
show_role operator = codes "operator"

unfoldable pub parse_role : Text → Parsed Role
parse_role s =
    if same_text s (codes "reader")
    then good reader
    else if same_text s (codes "operator")
    then good operator
    else bad bad_role

abbrev pub digest_prefix : Text
digest_prefix = codes "sha256:"

-- Entry.Format
unfoldable pub format : Entry → Text
format e =
    let line = e.subject ++ (b':' ∷ (show_role e.role ++ (b':' ∷ e.token_field))) in
    if same_text e.label [] then line else line ++ (codes "  # " ++ e.label)

abbrev pub is_digest_marker : Text → Bool
is_digest_marker s = same_text (trim_space s) (codes "sha256")

abbrev pub is_digest_field : Text → Bool
is_digest_field s = has_prefix s digest_prefix

unfoldable pub is_hex_digit : ℕ → Bool
is_hex_digit c = leb b'0' c && leb c b'9' || leb b'a' c && leb c b'f' || leb b'A' c && leb c b'F'

-- hex.DecodeString finds no error, for an even number of digits.
unfoldable pub is_hex : Text → Bool
is_hex [] = true
is_hex (c ∷ s) = is_hex_digit c && is_hex s

-- strings.TrimPrefix
abbrev pub trim_prefix : Text → Text → Text
trim_prefix s prefix = if has_prefix s prefix then drop (length prefix) s else s

unfoldable pub is_digest_field_valid : Text → Bool
is_digest_field_valid s = let d = trim_prefix s digest_prefix in eqb (length d) 64 && is_hex d

-- The token field of the third field on, which SplitN leaves with at most one cut.
unfoldable pub token_field_of : Text → Option (Text × Text) → Parsed Text
token_field_of third none = good third
token_field_of third (some (marker, digest)) =
    if is_digest_marker marker
    then if is_digest_field (digest_prefix ++ digest)
      then good (digest_prefix ++ digest)
      else bad bad_digest
    else bad token_colon

unfoldable pub check_token : Text → Role → Text → Parsed Text → Parsed Entry
check_token subject role label (bad why) = bad why
check_token subject role label (good raw) =
    let token = trim_space raw in
    if same_text token []
    then bad no_token
    else if is_digest_field token && not (is_digest_field_valid token)
    then bad bad_digest
    else good (record { subject = subject; role = role; label = label; token_field = token })

unfoldable pub check_role : Text → Text → Text → Parsed Role → Parsed Entry
check_role subject third label (bad why) = bad why
check_role subject third label (good role) =
    check_token subject role label (token_field_of third (cut b':' third))

-- The fields behind the first and the second `:`.
abbrev pub third_of : Text → Text → Option (Text × Text) → Parsed Entry
third_of first label none = bad fields
third_of first label (some (second, third)) =
    let subject = trim_space first in
    if same_text subject []
    then bad no_subject
    else check_role subject third label (parse_role (trim_space second))

abbrev pub second_of : Text → Option (Text × Text) → Parsed Entry
second_of label none = bad fields
second_of label (some (first, more)) = third_of first label (cut b':' more)

-- strings.SplitN(body, ":", 4), and the checks on its fields
unfoldable pub parse_body : Text → Text → Parsed Entry
parse_body body label = if same_text body [] then bad fields else second_of label (cut b':' body)

abbrev pub unlabel : Text → Option (Text × Text) → Parsed Entry
unlabel line none = parse_body line []
unlabel line (some (body, label)) = parse_body (trim_space body) (trim_space label)

unfoldable pub parse_entry : Text → Parsed Entry
parse_entry line = unlabel line (cut b'#' line)

module _ (sha256_hex : Text → Text) where
  -- Digest
  unfoldable pub digest : Text → Text
  digest token = sha256_hex (trim_space token)

  unfoldable pub new_entry : Text → Role → Text → Text → Entry
  new_entry subject role label plaintext = record {
    subject = trim_space subject;
    role = role;
    label = trim_space label;
    token_field = digest_prefix ++ digest plaintext;
  }

  -- The digest under which an entry is indexed.
  unfoldable pub digest_of : Entry → Text
  digest_of e =
      if is_digest_field e.token_field
      then trim_prefix e.token_field digest_prefix
      else digest e.token_field
