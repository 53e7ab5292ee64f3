-- ===== src/Store/Cleanup/References.antt =====
-- Foreign keys between two tables, and how deletions and updates keep them: a column of the child
-- is "" for NULL, or the key of a row of the parent table.
use veriproc.Prelude.{
  String, Bool, true, false, not, ◌&&◌, ◌||◌, ◌==◌, List, [], ◌∷◌, ◌≡◌, inl, inr, refl, ap, sym,
  subst, arith, Bool-cases, eq_iff, eq_refl,
}
use veriproc.Prelude.Lists.{All}
use veriproc.Store.Table.{update, exists_row}
use veriproc.Store.Cleanup.{among, without}

module _ {A B : Type 0} (column : A → String) (key : B → String) where
  abbrev pub refers : List B → A → Bool
  refers parents a = column a == "" || exists_row (λ b. key b == column a) parents

  -- FOREIGN KEY (column) REFERENCES parents (key)
  abbrev pub RefersAll : List A → List B → Type 0
  RefersAll children parents = All (λ a. refers parents a ≡ true) children

  pub RefersAll-without :
      (gone : A → Bool) (children : List A) (parents : List B)
      → RefersAll children parents
      → RefersAll (without gone children) parents
  RefersAll-without gone [] parents h = tt
  RefersAll-without gone (a ∷ rest) parents h = elim (Bool-cases (gone a)) [
    | inl deleted ↦ rw deleted (RefersAll-without gone rest parents h.1)
    | inr kept ↦ rw kept (h.0, RefersAll-without gone rest parents h.1)
  ]

  -- An update of other columns.
  pub RefersAll-update :
      (p : A → Bool) (f : A → A) (children : List A) (parents : List B)
      → ((a : A) → column (f a) ≡ column a)
      → RefersAll children parents
      → RefersAll (update p f children) parents
  RefersAll-update p f [] parents same h = tt
  RefersAll-update p f (a ∷ rest) parents same h = elim (Bool-cases (p a)) [
    | inl changed ↦ rw changed (
      subst (λ c. (c == "" || exists_row (λ b. key b == c) parents) ≡ true) (sym (same a)) h.0,
      RefersAll-update p f rest parents same h.1,
    )
    | inr kept ↦ rw kept (h.0, RefersAll-update p f rest parents same h.1)
  ]

  exists_row-update_key :
      (p : B → Bool) (f : B → B) (parents : List B) (k : String)
      → ((b : B) → key (f b) ≡ key b)
      → exists_row (λ b. key b == k) (update p f parents) ≡ exists_row (λ b. key b == k) parents
  exists_row-update_key p f [] k same = refl
  exists_row-update_key p f (b ∷ bs) k same =
      ground (arith, ap (λ x. x == k) (same b), exists_row-update_key p f bs k same)

  -- An update of the parents that leaves their keys alone.
  pub RefersAll-update_parents :
      (p : B → Bool) (f : B → B) (children : List A) (parents : List B)
      → ((b : B) → key (f b) ≡ key b)
      → RefersAll children parents
      → RefersAll children (update p f parents)
  RefersAll-update_parents p f [] parents same h = tt
  RefersAll-update_parents p f (a ∷ rest) parents same h = (
    rw (exists_row-update_key p f parents (column a) same) h.0,
    RefersAll-update_parents p f rest parents same h.1,
  )

  -- A parent that is not deleted is still there.
  exists_row_kept :
      (q : B → Bool) (parents : List B) (k : String)
      → exists_row (λ b. key b == k) parents ≡ true
      → exists_row (λ b. q b && key b == k) parents ≡ false
      → exists_row (λ b. key b == k) (without q parents) ≡ true
  exists_row_kept q [] k h none_gone = absurd (ground arith)
  exists_row_kept q (b ∷ bs) k h none_gone = ground (arith, exists_row_kept q bs k)

  -- The parents that `q` deletes are not those of the children that are left.
  pub RefersAll-parents :
      (q : B → Bool) (children : List A) (parents : List B)
      → All
          (λ a. (column a == "" || not (exists_row (λ b. q b && key b == column a) parents)) ≡ true)
          children
      → RefersAll children parents
      → RefersAll children (without q parents)
  RefersAll-parents q [] parents free h = tt
  RefersAll-parents q (a ∷ rest) parents free h = (
    ground (arith, free.0, h.0, exists_row_kept q parents (column a)),
    RefersAll-parents q rest parents free.1 h.1,
  )

  exists_row_none :
      (ids : List String) (parents : List B) (k : String)
      → among ids k ≡ false
      → exists_row (λ b. among ids (key b) && key b == k) parents ≡ false
  exists_row_none ids [] k h = refl
  exists_row_none ids (b ∷ bs) k h = elim (Bool-cases (key b == k)) [
    | inl same ↦
        ground (arith, ap (among ids) ((eq_iff (key b) k).0 same), exists_row_none ids bs k h)
    | inr other ↦ ground (arith, exists_row_none ids bs k h)
  ]

  -- The children of the deleted ids are deleted too, or none is left.
  pub RefersAll-ids :
      (ids : List String) (children : List A) (parents : List B)
      → All (λ a. (column a == "" || not (among ids (column a))) ≡ true) children
      → RefersAll children parents
      → RefersAll children (without (λ b. among ids (key b)) parents)
  RefersAll-ids ids [] parents free h = tt
  RefersAll-ids ids (a ∷ rest) parents free h = (
    ground (
      arith,
      free.0,
      h.0,
      exists_row_kept (λ b. among ids (key b)) parents (column a),
      exists_row_none ids parents (column a),
    ),
    RefersAll-ids ids rest parents free.1 h.1,
  )

  -- Deleting children and parents together.
  pub RefersAll-delete :
      (ids : List String) (gone : A → Bool) (children : List A) (parents : List B)
      → ((a : A) → among ids (column a) ≡ true → gone a ≡ true)
      → RefersAll children parents
      → RefersAll (without gone children) (without (λ b. among ids (key b)) parents)
  RefersAll-delete ids gone children parents covers h =
      RefersAll-ids ids (without gone children) parents (left children)
        (RefersAll-without gone children parents h)
    where
      left :
          (rest : List A)
          → All (λ a. (column a == "" || not (among ids (column a))) ≡ true) (without gone rest)
      left [] = tt
      left (a ∷ rest) = elim (Bool-cases (gone a)) [
        | inl deleted ↦ rw deleted (left rest)
        | inr kept ↦ rw kept (ground (arith, covers a), left rest)
      ]

  -- Setting the column to NULL where the parent is deleted.
  pub RefersAll-nullify :
      (ids : List String) (f : A → A) (children : List A) (parents : List B)
      → ((a : A) → column (f a) ≡ "")
      → RefersAll children parents
      → RefersAll
          (update (λ a. among ids (column a)) f children)
          (without (λ b. among ids (key b)) parents)
  RefersAll-nullify ids f [] parents null h = tt
  RefersAll-nullify ids f (a ∷ rest) parents null h = elim (Bool-cases (among ids (column a))) [
    | inl gone ↦ rw gone (
      ground (arith, ap (λ c. c == "") (null a), eq_refl ""),
      RefersAll-nullify ids f rest parents null h.1,
    )
    | inr kept ↦ rw kept (
      ground (
        arith,
        h.0,
        exists_row_kept (λ b. among ids (key b)) parents (column a),
        exists_row_none ids parents (column a) kept,
      ),
      RefersAll-nullify ids f rest parents null h.1,
    )
  ]

  -- Setting the column to NULL, with no parent deleted.
  pub RefersAll-null :
      (p : A → Bool) (f : A → A) (children : List A) (parents : List B)
      → ((a : A) → column (f a) ≡ "")
      → RefersAll children parents
      → RefersAll (update p f children) parents
  RefersAll-null p f [] parents null h = tt
  RefersAll-null p f (a ∷ rest) parents null h = elim (Bool-cases (p a)) [
    | inl changed ↦ rw changed (
      ground (arith, ap (λ c. c == "") (null a), eq_refl ""),
      RefersAll-null p f rest parents null h.1,
    )
    | inr kept ↦ rw kept (h.0, RefersAll-null p f rest parents null h.1)
  ]

-- An update of rows that are deleted next is lost.
pub without-update :
    {A : Type 0} (gone : A → Bool) (f : A → A) (rows : List A)
    → ((a : A) → gone (f a) ≡ gone a)
    → without gone (update gone f rows) ≡ without gone rows
without-update gone f [] same = refl
without-update gone f (a ∷ rest) same = elim (Bool-cases (gone a)) [
  | inl deleted ↦ rw (deleted, same a, deleted) (without-update gone f rest same)
  | inr kept ↦ rw (kept, kept) (ap (◌∷◌ a) (without-update gone f rest same))
]
