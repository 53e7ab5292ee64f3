-- ===== src/Examples/Access.antt =====
-- A small access profile, with the text of the token in place of its digest.
use veriproc.Prelude.{ℕ, true, some, ◌∷◌, ◌++◌, ◌≡◌, ◌↔◌, refl}
use veriproc.Prelude.Text.{
  Text, codes, same_text, trim_left, trim_right, is_space, split, cut, has_prefix,
}
use veriproc.Access.{
  Entry, good, operator, parse_entry, parse_role, parse_body, check_role, check_token,
  token_field_of, format, digest_of, digest,
}
use veriproc.Access.File.{
  Profile, Revision, valid, malformed, parse, parse_lines, parse_from, add_line, add_parsed,
  is_skipped, index_entry, carry_line, lookup, bytes, unix_lines, revoke, rewritten, get_elem?,
  empty_profile, has_subject,
}
use veriproc.Access.File.Digests.{lookup_iff}
use veriproc.Access.File.Revoke.{others, revoke-others}
use veriproc.Access.File.Texts.{bytes-parse}
use veriproc.Access.RoundTrip.Sound.{parse_entry-format}

abbrev whole : Text → Text
whole token = token

abbrev content : Text
content = codes "# team" ++ 10 ∷ codes "al:reader:t1" ++ 10 ∷ codes "bo : operator: t2 # x"

abbrev profile_of : Revision → Profile
profile_of (valid p) = p
profile_of (malformed e) = empty_profile

abbrev team : Profile
team = profile_of (parse whole content)

team_valid : parse whole content ≡ valid team
unfolding parse parse_lines parse_from add_line add_parsed is_skipped index_entry carry_line
    unix_lines split same_text trim_left trim_right is_space has_prefix parse_entry parse_role
    parse_body check_role check_token token_field_of cut digest_of digest
team_valid = refl

abbrev bo : Entry
bo = record { subject = codes "bo"; role = operator; label = codes "x"; token_field = codes "t2" }

lookup_iff_example : (lookup whole team (codes "t2") ≡ some bo) ↔ (
    (pos : ℕ) × (get_elem? team.entries pos ≡ some bo)
    × (digest_of whole bo ≡ digest whole (codes "t2")))
lookup_iff_example = lookup_iff whole content team (codes "t2") bo team_valid

al_present : has_subject team (codes "al") ≡ true
unfolding has_subject parse parse_lines parse_from add_line add_parsed is_skipped index_entry
    carry_line unix_lines split same_text trim_left trim_right is_space has_prefix parse_entry
    parse_role parse_body check_role check_token token_field_of cut digest_of digest
al_present = refl

revoke-others_example :
    (q : Profile) × (revoke whole team (codes "al") ≡ rewritten (valid q))
    × (q.entries ≡ others (codes "al") team.entries)
revoke-others_example = revoke-others whole (codes "al") content team team_valid al_present

bytes-parse_example : bytes team ≡ unix_lines content
bytes-parse_example = bytes-parse whole content team team_valid

bo_parses : parse_entry (codes "bo : operator: t2 # x") ≡ good bo
unfolding parse_entry parse_role parse_body check_role check_token token_field_of cut same_text
    trim_left trim_right is_space has_prefix
bo_parses = refl

parse_entry-format_example : parse_entry (format bo) ≡ good bo
parse_entry-format_example = parse_entry-format bo (codes "bo : operator: t2 # x") bo_parses
