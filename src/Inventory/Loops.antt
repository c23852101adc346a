-- ===== src/Inventory/Loops.antt =====
-- The shifts of a loop over lines: what its rounds move adds up, in any order of the lines.
use stock_pilot.Prelude.{
  ℕ, ◌≡◌, refl, ap, ◌∙◌, List, [], ◌∷◌, ⊤, leb, inl, inr, Bool-cases, insert_by, sort_by,
}
use stock_pilot.Prelude.Int.{ℤ, ◌+ℤ◌, int_laws}
use stock_pilot.Store.Rows.{Key}
use stock_pilot.Store.Monad.{Store, M, Ensures, Ensures-bind, Ensures-map, for_each}
use stock_pilot.Inventory.Shift.{Change, still, plus, Shift, Shift-trans, Shift-still}

swap_two : (a b c : ℤ) → a +ℤ (b +ℤ c) ≡ b +ℤ (a +ℤ c)
swap_two a b c = omega int_laws

module _ {A : Type 0} where
  -- What the lines move, one by one.
  unfoldable pub total : (A → Change) → List A → Change
  total d [] = still
  total d (l ∷ ls) = plus (d l) (total d ls)

  total-insert_by :
      (d : A → Change) (key : A → ℕ) (l : A) (ls : List A) (k : Key)
      → total d (insert_by key l ls) k ≡ d l k +ℤ total d ls k
  unfolding total insert_by
  total-insert_by d key l [] k = refl
  total-insert_by d key l (x ∷ xs) k = elim (Bool-cases (leb (key l) (key x))) [
    | inl e ↦ rw e
    | inr e ↦ rw e (ap (λ v. d x k +ℤ v) (total-insert_by d key l xs k) ∙ swap_two _ _ _)
  ]

  -- The order of the lines does not matter to their sum.
  pub total-sort_by :
      (d : A → Change) (key : A → ℕ) (ls : List A) (k : Key)
      → total d (sort_by key ls) k ≡ total d ls k
  unfolding total sort_by
  total-sort_by d key [] k = refl
  total-sort_by d key (l ∷ ls) k =
      total-insert_by d key l (sort_by key ls) k ∙ ap (λ v. d l k +ℤ v) (total-sort_by d key ls k)

  -- A line that moves nothing.
  abbrev pub unmoved : A → Change
  unmoved l = still

  pub total-unmoved : (ls : List A) (k : Key) → total unmoved ls k ≡ still k
  unfolding total
  total-unmoved [] k = refl
  total-unmoved (l ∷ ls) k = ap (λ v. still k +ℤ v) (total-unmoved ls k) ∙ omega int_laws

  -- A loop moves what its rounds move.
  pub for_each-Shift :
      (h r m : A → Change) (body : A → M ⊤)
      → ((l : A) (s : Store) → Ensures (λ _ t. Shift (h l) (r l) (m l) s t) (body l s))
      → (ls : List A) (s : Store)
      → Ensures (λ _ t. Shift (total h ls) (total r ls) (total m ls) s t) (for_each ls body s)
  unfolding total for_each
  for_each-Shift h r m body one [] s = Shift-still s s refl refl refl
  for_each-Shift h r m body one (l ∷ ls) s =
      Ensures-bind (λ _ t. Shift (h l) (r l) (m l) s t) _ _ _ (one l s)
        (λ _ t a.
          Ensures-map (λ _ u. Shift (total h ls) (total r ls) (total m ls) t u)
            (λ _ u. Shift (total h (l ∷ ls)) (total r (l ∷ ls)) (total m (l ∷ ls)) s u) _
            (λ _ u b. Shift-trans a b) (for_each-Shift h r m body one ls t))
