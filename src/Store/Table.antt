-- ===== src/Store/Table.antt =====
-- A table as the list of its rows in insertion order, with the three statements that the
-- repositories send: a conditional UPDATE with its count of affected rows, a SELECT of one row by
-- key, and a SELECT of the rows that satisfy a condition.
pub mod Laws
pub mod Keys
use veriproc.Prelude.{ℕ, suc, Bool, Option, none, some, List, [], ◌∷◌, if◌then◌else◌}

module _ {ℓ} {A : Type ℓ} where
  -- UPDATE … SET f WHERE p
  abbrev pub update : (A → Bool) → (A → A) → List A → List A
  update p f [] = []
  update p f (x ∷ xs) = (if p x then f x else x) ∷ update p f xs

  -- RowsAffected
  abbrev pub affected : (A → Bool) → List A → ℕ
  affected p [] = 0
  affected p (x ∷ xs) = let rest = affected p xs in if p x then suc rest else rest

  -- QueryRow: the first row that satisfies the condition
  abbrev pub find : (A → Bool) → List A → Option A
  find p [] = none
  find p (x ∷ xs) = let rest = find p xs in if p x then some x else rest

  -- Query: all rows that satisfy the condition
  abbrev pub select : (A → Bool) → List A → List A
  select p [] = []
  select p (x ∷ xs) = let rest = select p xs in if p x then x ∷ rest else rest

  abbrev pub exists_row : (A → Bool) → List A → Bool
  exists_row p [] = Bool.false
  exists_row p (x ∷ xs) = let rest = exists_row p xs in if p x then Bool.true else rest
