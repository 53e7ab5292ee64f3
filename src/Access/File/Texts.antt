-- ===== src/Access/File/Texts.antt =====
-- A profile keeps the text that it was parsed from.
use veriproc.Prelude.{ℕ, suc, List, [], ◌∷◌, ◌++◌, ◌≡◌, ap, sym, ◌∙◌}
use mathlib.Core.List.{append_assoc, append-nil, map-append}
use veriproc.Prelude.Text.{Text}
use veriproc.Access.File.Indexed.{
  Accepted, skipped, indexed, Accepts, stop, more, parse_from-Accepts,
}
use veriproc.Prelude.Text.Split.{join-split}
use veriproc.Prelude.Text.{join}
use veriproc.Access.File.{
  bytes, Profile, valid, texts, index_entry, carry_line, parse_lines, parse, empty_profile,
  unix_lines,
}

module _ (sha256_hex : Text → Text) where
  texts-Accepted :
      (i : ℕ) (line : Text) {p q : Profile}
      → Accepted sha256_hex i line p q
      → texts q ≡ texts p ++ line ∷ []
  texts-Accepted i line {p} (skipped s) = unfold carry_line in map-append (λ l. l.text) p.raw _
  texts-Accepted i line {p} (indexed e s r d) =
      unfold index_entry in map-append (λ l. l.text) p.raw _

  texts_behind :
      {last : Profile} (i : ℕ) (rest : List Text) (p : Profile)
      → Accepts sha256_hex last i rest p
      → texts last ≡ texts p ++ rest
  texts_behind i [] p stop = sym (append-nil (texts p))
  texts_behind i (line ∷ rest) p (more {q = q} a steps) =
      texts_behind (suc i) rest q steps
      ∙ ap (λ t. t ++ rest) (texts-Accepted i line a)
      ∙ append_assoc (texts p) (line ∷ []) rest

  pub texts-Accepts :
      {last : Profile} {lines : List Text}
      → Accepts sha256_hex last 0 lines empty_profile
      → texts last ≡ lines
  texts-Accepts steps = texts_behind 0 _ empty_profile steps

  -- A valid access profile gives back the text that it was parsed from, comments, blank lines and
  -- order included, with each CR LF turned to LF.
  pub bytes-parse :
      (content : Text) (p : Profile)
      → parse sha256_hex content ≡ valid p
      → bytes p ≡ unix_lines content
  unfolding bytes parse parse_lines
  bytes-parse content p h =
      ap (join 10) (texts-Accepts (parse_from-Accepts sha256_hex 0 _ empty_profile p h))
      ∙ join-split 10 (unix_lines content)
