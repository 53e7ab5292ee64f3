-- ===== src/Store/Table/Keys.antt =====
-- Tables with unique keys: what UPDATE and INSERT keep, and what an UPDATE by key does to the row
-- that a SELECT by key finds.
use mathlib.Core.Path.{fun_ext}
use veriproc.Prelude.{
  ◌≡◌, ap, refl, ap, ◌∙◌, Bool, true, false, ◌&&◌, none, some, List, [], ◌∷◌, ◌++◌, if◌then◌else◌,
  arith, Bool-cases, inl, inr,
}
use veriproc.Store.Table.{update, find, exists_row, affected}
use veriproc.Store.Table.Laws.{none≢some, some_inj, affected_none}

-- No two rows clash.
abbrev pub NoClash {ℓ} : {A : Type ℓ} → (A → A → Bool) → List A → Type 0
NoClash c [] = Unit
NoClash c (x ∷ xs) = (exists_row (c x) xs ≡ false) × NoClash c xs

module _ {ℓ} {A : Type ℓ} (c : A → A → Bool) where
  -- An UPDATE that leaves alone what `c` compares makes no clash.
  pub exists_row-update :
      (x : A) (p : A → Bool) (f : A → A)
      → ((y : A) → c x (f y) ≡ c x y)
      → (xs : List A) → exists_row (c x) (update p f xs) ≡ exists_row (c x) xs
  exists_row-update x p f k [] = refl
  exists_row-update x p f k (y ∷ ys) = elim (Bool-cases (p y)) [
    | inl e ↦ rw (e, k y, exists_row-update x p f k ys)
    | inr e ↦ rw (e, exists_row-update x p f k ys)
  ]

  pub NoClash-update :
      (p : A → Bool) (f : A → A)
      → ((x y : A) → c x (f y) ≡ c x y)
      → ((x y : A) → c (f x) y ≡ c x y)
      → (xs : List A) → NoClash c xs
      → NoClash c (update p f xs)
  NoClash-update p f right left [] h = tt
  NoClash-update p f right left (x ∷ xs) h = elim (Bool-cases (p x)) [
    | inl e ↦ rw e (
      exists_row-update (f x) p f (right (f x)) xs ∙ same (left x) xs ∙ h.0,
      NoClash-update p f right left xs h.1,
    )
    | inr e ↦
        rw e (exists_row-update x p f (right x) xs ∙ h.0, NoClash-update p f right left xs h.1)
  ]
    where
      same :
          ((y : A) → c (f x) y ≡ c x y)
          → (ys : List A) → exists_row (c (f x)) ys ≡ exists_row (c x) ys
      same l ys = ap (λ q. exists_row q ys) (fun_ext l)

  pub exists_row-append :
      (p : A → Bool) (xs ys : List A)
      → exists_row p xs ≡ false
      → exists_row p ys ≡ false
      → exists_row p (xs ++ ys) ≡ false
  exists_row-append p [] ys hx hy = hy
  exists_row-append p (x ∷ xs) ys hx hy = ground (arith, exists_row-append p xs ys)

  pub NoClash-append :
      ((x y : A) → c x y ≡ c y x)
      → (xs : List A) (new : A) → NoClash c xs
      → exists_row (c new) xs ≡ false
      → NoClash c (xs ++ new ∷ [])
  NoClash-append comm [] new h n = (refl, tt)
  NoClash-append comm (x ∷ xs) new h n = (
    exists_row-append (c x) xs (new ∷ []) h.0 (ground (arith, comm x new)),
    NoClash-append comm xs new h.1 (ground arith),
  )

-- SELECT by key and UPDATE by key and condition, over a table with unique keys.
module _ {ℓ} {A : Type ℓ} (p q : A → Bool) where
  pub find-update :
      (f : A → A)
      → ((x : A) → p (f x) ≡ p x)
      → (xs : List A) → {r : A} → find p xs ≡ some r
      → find p (update (λ x. p x && q x) f xs) ≡ some (if q r then f r else r)
  find-update f keep [] h = absurd (none≢some h)
  find-update f keep (x ∷ xs) {r} h = elim (Bool-cases (p x)) [
    | inl e ↦ first e (some_inj (let s : some x ≡ some r = rw e at h in s))
    | inr e ↦ rw (e, e) (find-update f keep xs (rw e at h))
  ]
    where
      first :
          p x ≡ true
          → x ≡ r
          → find p (update (λ y. p y && q y) f (x ∷ xs)) ≡ some (if q r then f r else r)
      first e same = elim (Bool-cases (q x)) [
        | inl t ↦ ground (arith, keep x)
        | inr t ↦ ground arith
      ]

  pub exists_row-find :
      (xs : List A) {r : A}
      → find p xs ≡ some r
      → q r ≡ true
      → exists_row (λ x. p x && q x) xs ≡ true
  exists_row-find [] h t = absurd (none≢some h)
  exists_row-find (x ∷ xs) {r} h t = ground (arith, exists_row-find xs {r = r})

  pub exists_row-of_find-none :
      (xs : List A) → find p xs ≡ none → exists_row (λ x. p x && q x) xs ≡ false
  exists_row-of_find-none [] h = refl
  exists_row-of_find-none (x ∷ xs) h = ground (arith, exists_row-of_find-none xs)

  exists_row_weaker :
      (c : A → Bool)
      → ((y : A) → p y ≡ true → c y ≡ true)
      → (xs : List A) → exists_row c xs ≡ false
      → exists_row (λ x. p x && q x) xs ≡ false
  exists_row_weaker c imp [] h = refl
  exists_row_weaker c imp (x ∷ xs) h = ground (arith, imp x, exists_row_weaker c imp xs)

  pub exists_row_unique :
      (c : A → A → Bool)
      → ((x y : A) → p x ≡ true → p y ≡ true → c x y ≡ true)
      → (xs : List A) → {r : A} → NoClash c xs
      → find p xs ≡ some r
      → q r ≡ false
      → exists_row (λ x. p x && q x) xs ≡ false
  exists_row_unique c key [] n h t = refl
  exists_row_unique c key (x ∷ xs) {r} n h t = elim (Bool-cases (p x)) [
    | inl e ↦ ground (arith, exists_row_weaker (c x) (λ y py. key x y e py) xs n.0)
    | inr e ↦ ground (arith, exists_row_unique c key xs {r = r} n.1)
  ]

-- SELECT by key after UPDATE by key.
module _ {ℓ} {A : Type ℓ} (p : A → Bool) (f : A → A) (keep : (x : A) → p (f x) ≡ p x) where
  pub find-update_key :
      (xs : List A) {r : A} → find p xs ≡ some r → find p (update p f xs) ≡ some (f r)
  find-update_key [] h = absurd (none≢some h)
  find-update_key (x ∷ xs) {r} h = elim (Bool-cases (p x)) [
    | inl e ↦
        let same : x ≡ r = some_inj (let s : some x ≡ some r = rw e at h in s) in
        rw (e, keep x, e) (ap (λ y. some (f y)) same)
    | inr e ↦ rw (e, e) (find-update_key xs (rw e at h))
  ]

-- An UPDATE by a unique key and a condition that the row of the key meets changes one row.
pub affected_one {ℓ} :
    {A : Type ℓ} (p q : A → Bool) (c : A → A → Bool)
    → ((x y : A) → p x ≡ true → p y ≡ true → c x y ≡ true)
    → (xs : List A) {r : A} → NoClash c xs
    → find p xs ≡ some r
    → q r ≡ true
    → affected (λ x. p x && q x) xs ≡ 1
affected_one p q c key [] n h t = absurd (none≢some h)
affected_one p q c key (x ∷ xs) {r} n h t = elim (Bool-cases (p x)) [
  | inl e ↦
      let none_left = exists_row_weaker p q (c x) (λ y py. key x y e py) xs n.0 in
      let same : x ≡ r = some_inj (let s : some x ≡ some r = rw e at h in s) in
      let t' : q x ≡ true = ap q same ∙ t in
      rw (e, t') (ground (arith, affected_none (λ x. p x && q x) xs none_left))
  | inr e ↦ rw e (affected_one p q c key xs n.1 (rw e at h) t)
]
