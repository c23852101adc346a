-- ===== src/Orders/Progress.antt =====
-- The loops over the lines of an order return where the balances have room for the whole order.
use stock_pilot.Prelude.{
  ℕ, ◌≡◌, refl, ap, some, List, [], ◌∷◌, ⊤, arith, sort_by, insert_by, leb, Bool-cases, inl, inr,
}
use stock_pilot.Prelude.Int.{ℤ, pos, pos_part, neg_part, ◌+ℤ◌, ◌-ℤ◌, ◌≤ℤ◌, int_laws}
use stock_pilot.Store.Rows.{Key, key_eq_iff, Balance, OrderLine, Order, Product}
use stock_pilot.Store.Table.{Table, find, column, pulse}
use stock_pilot.Store.Monad.{
  Store, M, Ensures, Achieves, Achieves-both, Achieves-map, for_each-Achieves, for_each,
}
use stock_pilot.Inventory.Shift.{on_hand_at, reserved_at, IsCovered, Change, Shift, still}
use stock_pilot.Inventory.Loops.{total, total-sort_by}
use stock_pilot.Orders.Transition.{
  line_key, by_product, find_product, reserve_line, fulfil_line, release_line,
}
use stock_pilot.Orders.Held.{demand}
use stock_pilot.Orders.Lines.{
  taken, claimed, reserve_line-Shift, fulfil_line-Shift, release_line-Shift,
}
use stock_pilot.Orders.LineProgress.{
  HasRow, Kept, int4_max, Room, release_line-Kept, fulfil_line-Kept, reserve_line-Kept,
}

-- Each line has the row of its balance and its product.
abbrev pub Lined : Order → Store → List OrderLine → Type 0
Lined o s [] = ⊤
Lined o s (l ∷ ls) =
    (HasRow (line_key o l) s
      × ((p : Product) × (find_product o.organization l.product s.products ≡ some p)))
    × Lined o s ls

pub record Stocked (o : Order) (ls : List OrderLine) (s : Store) : Type 0 where
  pub lined : Lined o s ls
  pub bounded : (k : Key) → on_hand_at k s ≤ℤ int4_max
  pub covered : IsCovered s

pub column_found :
    (f : Balance → ℤ) (k : Key) (b : Balance) (t : Table Balance)
    → find k t ≡ some b
    → column f k t ≡ f b
unfolding column
column_found f k b t h = rw (h, column) refl

room :
    (o : Order) (l : OrderLine) (ls : List OrderLine) (s : Store)
    → Stocked o (l ∷ ls) s
    → Room o l s
room o l ls s k =
    let ((b, e), (p, c)) = k.lined.0 in
    record {
      row = b;
      product = p;
      found = e;
      catalogued = c;
      covers =
          rw
            (
              column_found (λ x. x.reserved) (line_key o l) b s.balances e,
              column_found (λ x. x.on_hand) (line_key o l) b s.balances e,
            )
            at (k.covered (line_key o l));
      bounded =
          rw (column_found (λ x. x.on_hand) (line_key o l) b s.balances e) at
            (k.bounded (line_key o l));
    }

Kept-Lined :
    (o : Order) (ls : List OrderLine) (s t : Store) → Kept s t → Lined o s ls → Lined o t ls
Kept-Lined o [] s t k h = tt
Kept-Lined o (l ∷ ls) s t k ((r, (p, e)), h) =
    ((k.rows_kept (line_key o l) r, (p, rw k.products_same e)), Kept-Lined o ls s t k h)

Kept-Stocked :
    (o : Order) (l : OrderLine) (ls : List OrderLine) (h r m : Change) (s t : Store)
    → ((k : Key) → h k ≤ℤ pos 0)
    → Kept s t
    → Shift h r m s t
    → Stocked o (l ∷ ls) s
    → Stocked o ls t
Kept-Stocked o l ls h r m s t down k a x = record {
  lined = Kept-Lined o ls s t k x.lined.1;
  bounded = λ j. lower _ _ _ (a.on_hand_by j) (down j) (x.bounded j);
  covered = a.covered x.covered;
}
  where
    lower : (a b c : ℤ) → a ≡ b +ℤ c → c ≤ℤ pos 0 → b ≤ℤ int4_max → a ≤ℤ int4_max
    lower a b c e d m = rw e (omega int_laws)

pub pulse_nonneg : (j k : Key) (q : ℕ) → pos 0 ≤ℤ pulse j (pos q) k
unfolding pulse
pulse_nonneg j k q = ground arith

pulse_own : (k : Key) (q : ℤ) → pulse k q k ≡ q
unfolding pulse
pulse_own k q = ground (arith, key_eq_iff k k)

taken_falls : (o : Order) (l : OrderLine) (k : Key) → taken o l k ≤ℤ pos 0
unfolding pulse
taken_falls o l k = grind int_laws

taken-claimed : (o : Order) (l : OrderLine) (k : Key) → taken o l k ≡ pos 0 -ℤ claimed o l k
unfolding pulse
taken-claimed o l k = grind int_laws

pub total_nonneg : (o : Order) (ls : List OrderLine) (k : Key) → pos 0 ≤ℤ total (claimed o) ls k
unfolding total
total_nonneg o [] k = omega arith
total_nonneg o (l ∷ ls) k =
    omega (int_laws, pulse_nonneg (line_key o l) k l.quantity, total_nonneg o ls k)

pub first_claim :
    (o : Order) (l : OrderLine) (ls : List OrderLine)
    → pos l.quantity ≤ℤ total (claimed o) (l ∷ ls) (line_key o l)
unfolding total
first_claim o l ls = omega (
  int_laws,
  total_nonneg o ls (line_key o l),
  ap pos_part (pulse_own (line_key o l) (pos l.quantity)),
  ap neg_part (pulse_own (line_key o l) (pos l.quantity)),
)

-- The stock of all lines is held.
abbrev Held : Order → List OrderLine → Store → Type 0
Held o ls s = Stocked o ls s × ((k : Key) → total (claimed o) ls k ≤ℤ reserved_at k s)

-- The stock of all lines is available.
abbrev Available : Order → List OrderLine → Store → Type 0
Available o ls s =
    Stocked o ls s × ((k : Key) → reserved_at k s +ℤ total (claimed o) ls k ≤ℤ on_hand_at k s)

next_held :
    (o : Order) (l : OrderLine) (ls : List OrderLine) (k : Key) (r r' : ℤ)
    → total (claimed o) (l ∷ ls) k ≤ℤ r
    → r' ≡ r +ℤ taken o l k
    → total (claimed o) ls k ≤ℤ r'
unfolding total
next_held o l ls k r r' h e =
    rw (e, taken-claimed o l k) (lowers (claimed o l k) (total (claimed o) ls k) r h)
  where
    lowers : (c x r : ℤ) → c +ℤ x ≤ℤ r → x ≤ℤ r +ℤ (pos 0 -ℤ c)
    lowers c x r h = omega int_laws

own_held :
    (o : Order) (l : OrderLine) (ls : List OrderLine) (s : Store) (k : Stocked o (l ∷ ls) s)
    → total (claimed o) (l ∷ ls) (line_key o l) ≤ℤ reserved_at (line_key o l) s
    → pos l.quantity ≤ℤ (room o l ls s k).row.reserved
own_held o l ls s k h =
    let r = room o l ls s k in
    let here : pos l.quantity ≤ℤ reserved_at (line_key o l) s = omega (arith, first_claim o l ls) in
    rw (column_found (λ x. x.reserved) (line_key o l) r.row s.balances r.found) at here

own_available :
    (o : Order) (l : OrderLine) (ls : List OrderLine) (s : Store) (k : Stocked o (l ∷ ls) s)
    → reserved_at (line_key o l) s +ℤ total (claimed o) (l ∷ ls) (line_key o l)
      ≤ℤ on_hand_at (line_key o l) s
    → (room o l ls s k).row.reserved +ℤ pos l.quantity ≤ℤ (room o l ls s k).row.on_hand
own_available o l ls s k h =
    let r = room o l ls s k in
    let here : reserved_at (line_key o l) s +ℤ pos l.quantity ≤ℤ on_hand_at (line_key o l) s =
      omega (int_laws, first_claim o l ls) in
    rw
      (
        column_found (λ x. x.reserved) (line_key o l) r.row s.balances r.found,
        column_found (λ x. x.on_hand) (line_key o l) r.row s.balances r.found,
      )
      at here

-- A loop that takes the lines out of what is held.
taking-Achieves :
    (o : Order) (h m : OrderLine → Change) (body : OrderLine → M ⊤)
    → ((l : OrderLine) (k : Key) → h l k ≤ℤ pos 0)
    → ((l : OrderLine) (s : Store) (r : Room o l s)
        → pos l.quantity ≤ℤ r.row.reserved
        → Achieves (λ _ t. Kept s t) (body l s))
    → ((l : OrderLine) (s : Store) → Ensures (λ _ t. Shift (h l) (taken o l) (m l) s t) (body l s))
    → (ls : List OrderLine) (s : Store) → Held o ls s
    → Achieves (λ _ t. ⊤) (for_each ls body s)
taking-Achieves o h m body down keep shift ls s i =
    Achieves-map (λ _ t. Held o [] t) (λ _ t. ⊤) _ (λ _ _ _. tt)
      (for_each-Achieves (Held o) body round ls s i)
  where
    round :
        (l : OrderLine) (ls : List OrderLine) (s : Store)
        → Held o (l ∷ ls) s
        → Achieves (λ _ t. Held o ls t) (body l s)
    round l ls s (k, e) =
        Achieves-map (λ _ t. Kept s t × Shift (h l) (taken o l) (m l) s t) (λ _ t. Held o ls t) _
          (λ _ t (w, a). (
            Kept-Stocked o l ls (h l) (taken o l) (m l) s t (down l) w a k,
            λ j. next_held o l ls j _ _ (e j) (a.reserved_by j),
          ))
          (Achieves-both _ _ _ (keep l s (room o l ls s k) (own_held o l ls s k (e (line_key o l))))
            (shift l s))

next_available :
    (o : Order) (l : OrderLine) (ls : List OrderLine) (k : Key) (r r' h h' : ℤ)
    → r +ℤ total (claimed o) (l ∷ ls) k ≤ℤ h
    → r' ≡ r +ℤ claimed o l k
    → h' ≡ h +ℤ still k
    → r' +ℤ total (claimed o) ls k ≤ℤ h'
unfolding total
next_available o l ls k r r' h h' e a b =
    rw (a, b) (regroups (claimed o l k) (total (claimed o) ls k) r h e)
  where
    regroups : (c x r h : ℤ) → r +ℤ (c +ℤ x) ≤ℤ h → r +ℤ c +ℤ x ≤ℤ h +ℤ pos 0
    regroups c x r h e = omega int_laws

reserving-Achieves :
    (now : ℕ) (o : Order) (ls : List OrderLine) (s : Store)
    → Available o ls s
    → Achieves (λ _ t. ⊤) (for_each ls (reserve_line now o) s)
reserving-Achieves now o ls s i =
    Achieves-map (λ _ t. Available o [] t) (λ _ t. ⊤) _ (λ _ _ _. tt)
      (for_each-Achieves (Available o) (reserve_line now o) round ls s i)
  where
    round :
        (l : OrderLine) (ls : List OrderLine) (s : Store)
        → Available o (l ∷ ls) s
        → Achieves (λ _ t. Available o ls t) (reserve_line now o l s)
    round l ls s (k, e) =
        Achieves-map (λ _ t. Kept s t × Shift still (claimed o l) still s t)
          (λ _ t. Available o ls t) _
          (λ _ t (w, a). (
            Kept-Stocked o l ls still (claimed o l) still s t (λ j. omega arith) w a k,
            λ j. next_available o l ls j _ _ _ _ (e j) (a.reserved_by j) (a.on_hand_by j),
          ))
          (Achieves-both _ _ _
            (reserve_line-Kept now o l s (room o l ls s k)
              (own_available o l ls s k (e (line_key o l))))
            (reserve_line-Shift now o l s))

-- The loops run over the lines in the order of their products.
insert_by-Lined :
    (o : Order) (s : Store) (l : OrderLine) (ls : List OrderLine)
    → Lined o s (l ∷ ls)
    → Lined o s (insert_by by_product l ls)
unfolding insert_by
insert_by-Lined o s l [] h = h
insert_by-Lined o s l (x ∷ xs) (h, (k, r)) = elim (Bool-cases (leb (by_product l) (by_product x))) [
  | inl e ↦ rw e (h, (k, r))
  | inr e ↦ rw e (k, insert_by-Lined o s l xs (h, r))
]

sort_by-Lined :
    (o : Order) (s : Store) (ls : List OrderLine) → Lined o s ls → Lined o s (sort_by by_product ls)
unfolding sort_by
sort_by-Lined o s [] h = tt
sort_by-Lined o s (l ∷ ls) (h, r) =
    insert_by-Lined o s l (sort_by by_product ls) (h, sort_by-Lined o s ls r)

sort_by-Stocked :
    (o : Order) (s : Store) → Stocked o o.lines s → Stocked o (sort_by by_product o.lines) s
sort_by-Stocked o s k = record {
  lined = sort_by-Lined o s o.lines k.lined;
  bounded = k.bounded;
  covered = k.covered;
}

sorted_demand :
    (o : Order) (k : Key) → total (claimed o) (sort_by by_product o.lines) k ≡ demand o k
unfolding demand
sorted_demand o k = total-sort_by (claimed o) by_product o.lines k

module _ (now : ℕ) (o : Order) (s : Store) (k : Stocked o o.lines s) where
  pub release_returns :
      ((j : Key) → demand o j ≤ℤ reserved_at j s)
      → Achieves (λ _ _. ⊤) (for_each (sort_by by_product o.lines) (release_line now o) s)
  release_returns e =
      taking-Achieves o (λ _. still) (λ _. still) (release_line now o) (λ _ _. omega arith)
        (release_line-Kept now o) (release_line-Shift now o) (sort_by by_product o.lines) s
        (sort_by-Stocked o s k, λ j. rw (sorted_demand o j) (e j))

  pub fulfil_returns :
      (actor : ℕ)
      → ((j : Key) → demand o j ≤ℤ reserved_at j s)
      → Achieves (λ _ _. ⊤) (for_each (sort_by by_product o.lines) (fulfil_line now actor o) s)
  fulfil_returns actor e =
      taking-Achieves o (taken o) (taken o) (fulfil_line now actor o) (taken_falls o)
        (fulfil_line-Kept now actor o) (fulfil_line-Shift now actor o) (sort_by by_product o.lines)
        s (sort_by-Stocked o s k, λ j. rw (sorted_demand o j) (e j))

  pub reserve_returns :
      ((j : Key) → reserved_at j s +ℤ demand o j ≤ℤ on_hand_at j s)
      → Achieves (λ _ _. ⊤) (for_each (sort_by by_product o.lines) (reserve_line now o) s)
  reserve_returns e =
      reserving-Achieves now o (sort_by by_product o.lines) s
        (sort_by-Stocked o s k, λ j. rw (sorted_demand o j) (e j))
