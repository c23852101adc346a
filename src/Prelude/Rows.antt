-- ===== src/Prelude/Rows.antt =====
-- Queries over the rows of a table: count, the first row that matches, and the writes to all rows
-- that match.
use Prim.Native.Nat.{ℕ, ◌+◌, ◌≤◌}
use stock_pilot.Prelude.Tests.{if◌then◌else◌, Bool-cases}
use mathlib.Core.Path.{◌≡◌, refl, ap, ◌∙◌}
use mathlib.Core.Logic.{inl, inr}
use mathlib.Core.Bool.{Bool, true, false, ◌&&◌}
use mathlib.Core.Option.{Option, none, some}
use mathlib.Core.List.{List, [], ◌∷◌}
use native.Mathlib.Omega.{arith}

abbrev pub bit : Bool → ℕ
bit b = if b then 1 else 0

module _ {ℓ} {A : Type ℓ} where
  unfoldable pub count : (A → Bool) → List A → ℕ
  count p [] = 0
  count p (x ∷ xs) = bit (p x) + count p xs

  unfoldable pub find_first : (A → Bool) → List A → Option A
  find_first p [] = none
  find_first p (x ∷ xs) = if p x then some x else find_first p xs

  unfoldable pub select : (A → Bool) → List A → List A
  select p [] = []
  select p (x ∷ xs) = let rest = select p xs in if p x then x ∷ rest else rest

  unfoldable pub update_where : (A → Bool) → (A → A) → List A → List A
  update_where p f [] = []
  update_where p f (x ∷ xs) = (if p x then f x else x) ∷ update_where p f xs

  unfoldable pub delete_where : (A → Bool) → List A → List A
  delete_where p [] = []
  delete_where p (x ∷ xs) = let rest = delete_where p xs in if p x then rest else x ∷ rest

  update_where-none :
      (p q : A → Bool) (f : A → A) (xs : List A)
      → count p xs ≡ 0
      → count q (update_where p f xs) ≡ count q xs
  unfolding count update_where
  update_where-none p q f [] h = ground arith
  update_where-none p q f (x ∷ xs) h = ground (arith, update_where-none p q f xs)

  delete_where-none :
      (p q : A → Bool) (xs : List A) → count p xs ≡ 0 → count q (delete_where p xs) ≡ count q xs
  unfolding count delete_where
  delete_where-none p q [] h = ground arith
  delete_where-none p q (x ∷ xs) h = ground (arith, delete_where-none p q xs)

  -- A write to the one row that matches changes a count by what it changes of that row.
  pub count-update_where :
      (p q : A → Bool) (f : A → A) (xs : List A) (x : A)
      → count p xs ≤ 1
      → find_first p xs ≡ some x
      → count q (update_where p f xs) + bit (q x) ≡ count q xs + bit (q (f x))
  unfolding count update_where find_first
  count-update_where p q f [] x u h = cc
  count-update_where p q f (y ∷ ys) x u h =
      ground (arith, count-update_where p q f ys x, update_where-none p q f ys)

  pub count-delete_where :
      (p q : A → Bool) (xs : List A) (x : A)
      → count p xs ≤ 1
      → find_first p xs ≡ some x
      → count q (delete_where p xs) + bit (q x) ≡ count q xs
  unfolding count delete_where find_first
  count-delete_where p q [] x u h = cc
  count-delete_where p q (y ∷ ys) x u h =
      ground (arith, count-delete_where p q ys x, delete_where-none p q ys)

  pub count-delete_where_le :
      (p q : A → Bool) (xs : List A) → count q (delete_where p xs) ≤ count q xs
  unfolding count delete_where
  count-delete_where_le p q [] = omega arith
  count-delete_where_le p q (x ∷ xs) = ground (arith, count-delete_where_le p q xs)

  -- A write that no row's test notices changes no count.
  pub count-change :
      (p q : A → Bool) (f : A → A) (xs : List A)
      → ((x : A) → q (f x) ≡ q x)
      → count q (update_where p f xs) ≡ count q xs
  unfolding count update_where
  count-change p q f [] h = ground arith
  count-change p q f (x ∷ xs) h = ground (arith, h x, count-change p q f xs h)

  -- A write after which no more rows match raises no count.
  pub count-shrink :
      (p q : A → Bool) (f : A → A) (xs : List A)
      → ((x : A) → q (f x) ≡ true → q x ≡ true)
      → count q (update_where p f xs) ≤ count q xs
  unfolding count update_where
  count-shrink p q f [] h = ground arith
  count-shrink p q f (x ∷ xs) h = ground (arith, h x, count-shrink p q f xs h)

  pub find_first-holds :
      (p : A → Bool) (xs : List A) (x : A) → find_first p xs ≡ some x → p x ≡ true
  unfolding find_first
  find_first-holds p [] x h = cc
  find_first-holds p (y ∷ ys) x h = ground (arith, find_first-holds p ys x)

  find_first-counts :
      (p q : A → Bool) (xs : List A) (x : A)
      → find_first (λ y. q y && p y) xs ≡ some x
      → 1 ≤ count p xs
  unfolding find_first count
  find_first-counts p q [] x h = cc
  find_first-counts p q (y ∷ ys) x h = ground (arith, find_first-counts p q ys x)

  -- Where one row matches, a narrower query that finds a row finds that one.
  pub find_first-narrow :
      (p q : A → Bool) (xs : List A) (x : A)
      → count p xs ≤ 1
      → find_first (λ y. q y && p y) xs ≡ some x
      → find_first p xs ≡ some x
  unfolding find_first count
  find_first-narrow p q [] x u h = cc
  find_first-narrow p q (y ∷ ys) x u h =
      ground (arith, find_first-narrow p q ys x, find_first-counts p q ys x)

  -- A write to the rows that a wider test selects is seen by the query.
  pub find_first-update_where :
      (p q : A → Bool) (f : A → A) (xs : List A) (x : A)
      → ((y : A) → (q (f y) && p (f y)) ≡ (q y && p y))
      → find_first (λ y. q y && p y) xs ≡ some x
      → find_first (λ y. q y && p y) (update_where p f xs) ≡ some (f x)
  unfolding find_first update_where
  find_first-update_where p q f [] x k h = cc
  find_first-update_where p q f (y ∷ ys) x k h =
      ground (arith, k y, find_first-update_where p q f ys x k)

  -- A deletion of other rows than the one that a query finds.
  pub find_first-delete_where :
      (p dead : A → Bool) (xs : List A) (x : A)
      → dead x ≡ false
      → find_first p xs ≡ some x
      → find_first p (delete_where dead xs) ≡ some x
  unfolding find_first delete_where
  find_first-delete_where p dead [] x k h = cc
  find_first-delete_where p dead (y ∷ ys) x k h = elim (Bool-cases (p y)) [
    | inl own ↦
        let same : y ≡ x = ground arith in
        let live : dead y ≡ false = ap dead same ∙ k in ground arith
    | inr other ↦ ground (arith, find_first-delete_where p dead ys x k)
  ]

  -- The one write of a query by key.
  pub find_first-write :
      (p : A → Bool) (f : A → A) (xs : List A) (x : A)
      → ((y : A) → p (f y) ≡ p y)
      → find_first p xs ≡ some x
      → find_first p (update_where p f xs) ≡ some (f x)
  unfolding find_first update_where
  find_first-write p f [] x k h = cc
  find_first-write p f (y ∷ ys) x k h = ground (arith, k y, find_first-write p f ys x k)

  -- A write to other rows.
  pub find_first-elsewhere :
      (p q : A → Bool) (f : A → A) (xs : List A)
      → ((y : A) → q (f y) ≡ q y)
      → ((y : A) → p y ≡ true → q y ≡ false)
      → find_first q (update_where p f xs) ≡ find_first q xs
  unfolding find_first update_where
  find_first-elsewhere p q f [] k d = refl
  find_first-elsewhere p q f (y ∷ ys) k d =
      ground (arith, k y, d y, find_first-elsewhere p q f ys k d)

  pub update_where-update_where :
      (p : A → Bool) (f g : A → A) (xs : List A)
      → ((y : A) → p (f y) ≡ p y)
      → update_where p g (update_where p f xs) ≡ update_where p (λ y. g (f y)) xs
  unfolding update_where
  update_where-update_where p f g [] k = refl
  update_where-update_where p f g (y ∷ ys) k =
      ground (arith, k y, update_where-update_where p f g ys k)

  -- Where no row matches.
  pub update_where-absent :
      (p : A → Bool) (f : A → A) (xs : List A) → find_first p xs ≡ none → update_where p f xs ≡ xs
  unfolding find_first update_where
  update_where-absent p f [] h = refl
  update_where-absent p f (y ∷ ys) h = ground (arith, update_where-absent p f ys)

  pub count-absent : (p : A → Bool) (xs : List A) → find_first p xs ≡ none → count p xs ≡ 0
  unfolding find_first count
  count-absent p [] h = refl
  count-absent p (y ∷ ys) h = ground (arith, count-absent p ys)
