-- ===== src/Store/Table/Laws.antt =====
-- What an UPDATE, a SELECT and an INSERT do to every row of a table.
use veriproc.Prelude.{
  ◌≡◌, refl, Bool, true, false, none, some, List, [], ◌∷◌, ◌++◌, if◌then◌else◌, All, arith, eqb,
  Bool-cases, inl, inr, subst,
}
use veriproc.Store.Table.{update, affected, find, exists_row}

-- `ys` holds a successor of every row of `xs`, in order, and may go on with new rows.
abbrev pub Grows {ℓ} : {A : Type ℓ} → (A → A → Type 0) → List A → List A → Type 0
Grows R [] ys = Unit
Grows R (x ∷ xs) [] = ⊥
Grows R (x ∷ xs) (y ∷ ys) = R x y × Grows R xs ys

pub none≢some {ℓ} : {A : Type ℓ} {x : A} → none ≡ some x → ⊥
none≢some e = cc

pub some_inj {ℓ} : {A : Type ℓ} {x y : A} → some x ≡ some y → x ≡ y
some_inj e = cc

module _ {ℓ} {A : Type ℓ} (R : A → A → Type 0) where
  pub Grows-refl : ((x : A) → R x x) → (xs : List A) → Grows R xs xs
  Grows-refl r [] = tt
  Grows-refl r (x ∷ xs) = (r x, Grows-refl r xs)

  pub Grows-append : ((x : A) → R x x) → (xs ys : List A) → Grows R xs (xs ++ ys)
  Grows-append r [] ys = tt
  Grows-append r (x ∷ xs) ys = (r x, Grows-append r xs ys)

  pub Grows-trans :
      ((x y z : A) → R x y → R y z → R x z)
      → (xs ys zs : List A) → Grows R xs ys
      → Grows R ys zs
      → Grows R xs zs
  Grows-trans t [] ys zs g h = tt
  Grows-trans t (x ∷ xs) [] zs g h = absurd g
  Grows-trans t (x ∷ xs) (y ∷ ys) [] g h = absurd h
  Grows-trans t (x ∷ xs) (y ∷ ys) (z ∷ zs) g h = (t x y z g.0 h.0, Grows-trans t xs ys zs g.1 h.1)

  pub update-Grows :
      (p : A → Bool) (f : A → A)
      → ((x : A) → R x x)
      → ((x : A) → p x ≡ true → R x (f x))
      → (xs : List A) → Grows R xs (update p f xs)
  update-Grows p f r s [] = tt
  update-Grows p f r s (x ∷ xs) = (row (p x) (s x), update-Grows p f r s xs)
    where
      row : (b : Bool) → (b ≡ true → R x (f x)) → R x (if b then f x else x)
      row true h = h refl
      row false h = r x

  -- A property that successors inherit holds on at every old row.
  pub Grows-find :
      (p : A → Bool)
      → ((x y : A) → R x y → p x ≡ p y)
      → (xs ys : List A) → Grows R xs ys
      → {x : A} → find p xs ≡ some x
      → (y : A) × (find p ys ≡ some y) × R x y
  Grows-find p keep [] ys g h = absurd (none≢some h)
  Grows-find p keep (x ∷ xs) [] g h = absurd g
  Grows-find p keep (x ∷ xs) (y ∷ ys) g {x = a} h = elim (Bool-cases (p x)) [
    | inl e ↦
        let q : some x ≡ some a = rw e at h in
        (y, rw (← keep x y g.0, e), subst (λ t. R t y) (some_inj q) g.0)
    | inr e ↦
        let q : find p xs ≡ some a = rw e at h in
        rw (← keep x y g.0, e) (Grows-find p keep xs ys g.1 q)
  ]

pub Grows-map {ℓ} :
    {A : Type ℓ} (R Q : A → A → Type 0)
    → ((x y : A) → R x y → Q x y)
    → (xs ys : List A) → Grows R xs ys
    → Grows Q xs ys
Grows-map R Q f [] ys g = tt
Grows-map R Q f (x ∷ xs) [] g = absurd g
Grows-map R Q f (x ∷ xs) (y ∷ ys) g = (f x y g.0, Grows-map R Q f xs ys g.1)

module _ {ℓ} {A : Type ℓ} (P : A → Type 0) where
  pub All-update :
      (p : A → Bool) (f : A → A)
      → ((x : A) → p x ≡ true → P x → P (f x))
      → (xs : List A) → All P xs
      → All P (update p f xs)
  All-update p f s [] h = tt
  All-update p f s (x ∷ xs) h = (row (p x) (s x), All-update p f s xs h.1)
    where
      row : (b : Bool) → (b ≡ true → P x → P (f x)) → P (if b then f x else x)
      row true k = k refl h.0
      row false k = h.0

  pub All-find : (p : A → Bool) (xs : List A) {x : A} → All P xs → find p xs ≡ some x → P x
  All-find p [] h e = absurd (none≢some e)
  All-find p (x ∷ xs) {x = a} h e = elim (Bool-cases (p x)) [
    | inl q ↦ let here : some x ≡ some a = rw q at e in subst P (some_inj here) h.0
    | inr q ↦ All-find p xs h.1 (rw q at e)
  ]

module _ {ℓ} {A : Type ℓ} where
  -- No row is affected just where none satisfies the condition, and then nothing changes.
  pub affected-exists_row :
      (p : A → Bool) (xs : List A) → eqb (affected p xs) 0 ≡ true → exists_row p xs ≡ false
  affected-exists_row p [] h = refl
  affected-exists_row p (x ∷ xs) h = ground (arith, affected-exists_row p xs)

  pub exists_row-affected :
      (p : A → Bool) (xs : List A) → eqb (affected p xs) 0 ≡ false → exists_row p xs ≡ true
  exists_row-affected p [] h = cc
  exists_row-affected p (x ∷ xs) h = ground (arith, exists_row-affected p xs)

  pub affected_none : (p : A → Bool) (xs : List A) → exists_row p xs ≡ false → affected p xs ≡ 0
  affected_none p [] h = refl
  affected_none p (x ∷ xs) h = ground (arith, affected_none p xs)

  pub update-of_none :
      (p : A → Bool) (f : A → A) (xs : List A) → exists_row p xs ≡ false → update p f xs ≡ xs
  update-of_none p f [] h = refl
  update-of_none p f (x ∷ xs) h = ground (arith, update-of_none p f xs)
