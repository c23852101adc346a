-- ===== src/Inventory/Shift.antt =====
-- How a piece of a transaction moves the columns of the balances and the stock ledger. Each step
-- of a command has one such lemma, and the shifts of consecutive steps add up.
use stock_pilot.Prelude.{
  ◌≡◌, refl, ap, ◌∙◌, Bool, true, false, List, [], ◌∷◌, some, arith, if◌then◌else◌,
}
use stock_pilot.Prelude.Int.{ℤ, pos, ◌+ℤ◌, ◌-ℤ◌, ◌≤ℤ◌, int_laws}
use stock_pilot.Store.Rows.{Key, key_eq, Balance, Movement}
use stock_pilot.Store.Table.{Table, find, put, column, pulse, column-put, column-put_if}
use stock_pilot.Store.Monad.{Store}

abbrev pub on_hand_at : Key → Store → ℤ
on_hand_at k s = column (λ b. b.on_hand) k s.balances

abbrev pub reserved_at : Key → Store → ℤ
reserved_at k s = column (λ b. b.reserved) k s.balances

-- The sum of the ledger's deltas for a balance.
unfoldable pub moved : Key → List Movement → ℤ
moved k [] = pos 0
moved k (m ∷ ms) = pulse m.key m.quantity_delta k +ℤ moved k ms

-- The CHECK constraint of `inventory_balances`.
abbrev pub Covers : ℤ → ℤ → Type 0
Covers reserved on_hand = (pos 0 ≤ℤ reserved) × (reserved ≤ℤ on_hand)

abbrev pub IsCovered : Store → Type 0
IsCovered s = (k : Key) → Covers (reserved_at k s) (on_hand_at k s)

abbrev pub Change : Type 0
Change = Key → ℤ

abbrev pub still : Change
still k = pos 0

abbrev pub plus : Change → Change → Change
plus f g k = f k +ℤ g k

pub record Shift (h r m : Change) (s t : Store) : Type 0 where
  pub orders_same : t.orders ≡ s.orders
  pub on_hand_by : (k : Key) → on_hand_at k t ≡ on_hand_at k s +ℤ h k
  pub reserved_by : (k : Key) → reserved_at k t ≡ reserved_at k s +ℤ r k
  pub moved_by : (k : Key) → moved k t.movements ≡ moved k s.movements +ℤ m k
  pub covered : IsCovered s → IsCovered t

add_nothing : (a : ℤ) → a ≡ a +ℤ pos 0
add_nothing a = omega int_laws

-- What a step leaves alone.
pub Shift-columns :
    (s t : Store)
    → t.orders ≡ s.orders
    → ((k : Key) → on_hand_at k t ≡ on_hand_at k s)
    → ((k : Key) → reserved_at k t ≡ reserved_at k s)
    → t.movements ≡ s.movements
    → Shift still still still s t
Shift-columns s t o h r m = record {
  orders_same = o;
  on_hand_by = λ k. rw (h k) (add_nothing _);
  reserved_by = λ k. rw (r k) (add_nothing _);
  moved_by = λ k. rw m (add_nothing _);
  covered = λ c k. rw (h k, r k) (c k);
}

pub Shift-still :
    (s t : Store)
    → t.orders ≡ s.orders
    → t.balances ≡ s.balances
    → t.movements ≡ s.movements
    → Shift still still still s t
Shift-still s t o b m = Shift-columns s t o (λ k. rw b) (λ k. rw b) m

add_commutes : (a b : ℤ) → a +ℤ b ≡ b +ℤ a
add_commutes a b = omega int_laws

-- One more row of the ledger.
pub Shift-movement :
    (x : Movement) (s t : Store)
    → t.orders ≡ s.orders
    → t.balances ≡ s.balances
    → t.movements ≡ x ∷ s.movements
    → Shift still still (pulse x.key x.quantity_delta) s t
unfolding moved
Shift-movement x s t o b m = record {
  orders_same = o;
  on_hand_by = λ k. rw b (add_nothing _);
  reserved_by = λ k. rw b (add_nothing _);
  moved_by = λ k. rw m (add_commutes _ _);
  covered = λ c k. rw b (c k);
}

regroup : (a b c d e : ℤ) → a ≡ b +ℤ c → d ≡ a +ℤ e → d ≡ b +ℤ (c +ℤ e)
regroup a b c d e p q = q ∙ rw p (omega int_laws)

pub Shift-trans :
    {h r m h' r' m' : Change} {s t u : Store}
    → Shift h r m s t
    → Shift h' r' m' t u
    → Shift (plus h h') (plus r r') (plus m m') s u
Shift-trans a b = record {
  orders_same = b.orders_same ∙ a.orders_same;
  on_hand_by = λ k. regroup _ _ _ _ _ (a.on_hand_by k) (b.on_hand_by k);
  reserved_by = λ k. regroup _ _ _ _ _ (a.reserved_by k) (b.reserved_by k);
  moved_by = λ k. regroup _ _ _ _ _ (a.moved_by k) (b.moved_by k);
  covered = λ c. b.covered (a.covered c);
}

pub Shift-eq :
    {h r m h' r' m' : Change} {s t : Store}
    → ((k : Key) → h k ≡ h' k)
    → ((k : Key) → r k ≡ r' k)
    → ((k : Key) → m k ≡ m' k)
    → Shift h r m s t
    → Shift h' r' m' s t
Shift-eq eh er em a = record {
  orders_same = a.orders_same;
  on_hand_by = λ k. rw (← eh k) (a.on_hand_by k);
  reserved_by = λ k. rw (← er k) (a.reserved_by k);
  moved_by = λ k. rw (← em k) (a.moved_by k);
  covered = a.covered;
}

column_of_find :
    (f : Balance → ℤ) (k : Key) (t : Table Balance) (b : Balance)
    → find k t ≡ some b
    → column f k t ≡ f b
unfolding column
column_of_find f k t b e = ground (arith, e)

if-Covers :
    (c : Bool) (r h r' h' : ℤ)
    → Covers r h
    → Covers r' h'
    → Covers (if c then r else r') (if c then h else h')
if-Covers true _ _ _ _ p q = p
if-Covers false _ _ _ _ p q = q

-- A write of one row.
pub Shift-put :
    (k : Key) (b b' : Balance) (s t : Store)
    → find k s.balances ≡ some b
    → t.orders ≡ s.orders
    → t.balances ≡ put k b' s.balances
    → t.movements ≡ s.movements
    → (Covers b.reserved b.on_hand → Covers b'.reserved b'.on_hand)
    → Shift (pulse k (b'.on_hand -ℤ b.on_hand)) (pulse k (b'.reserved -ℤ b.reserved)) still s t
Shift-put k b b' s t e o p m c = record {
  orders_same = o;
  on_hand_by = on_hand_by;
  reserved_by = reserved_by;
  moved_by = λ j. rw m (add_nothing _);
  covered = covered;
}
  where
    on_hand_by : (j : Key) → on_hand_at j t ≡ on_hand_at j s +ℤ pulse k (b'.on_hand -ℤ b.on_hand) j
    on_hand_by j =
        rw (p, ← column_of_find (λ x. x.on_hand) k s.balances b e)
          (column-put (λ x. x.on_hand) k j b' s.balances)

    reserved_by :
        (j : Key) → reserved_at j t ≡ reserved_at j s +ℤ pulse k (b'.reserved -ℤ b.reserved) j
    reserved_by j =
        rw (p, ← column_of_find (λ x. x.reserved) k s.balances b e)
          (column-put (λ x. x.reserved) k j b' s.balances)

    covered : IsCovered s → IsCovered t
    covered h j =
        rw
          (
            p,
            column-put_if (λ x. x.on_hand) k j b' s.balances,
            column-put_if (λ x. x.reserved) k j b' s.balances,
          )
          (if-Covers (key_eq k j) _ _ _ _
            (c (
              rw
                (
                  ← column_of_find (λ x. x.on_hand) k s.balances b e,
                  ← column_of_find (λ x. x.reserved) k s.balances b e,
                )
                (h k)))
            (h j))

pulse_zero : (k j : Key) → pulse k (pos 0) j ≡ pos 0
unfolding pulse
pulse_zero k j = ground arith

nothing_right : (a : ℤ) → a +ℤ pos 0 ≡ a
nothing_right a = omega int_laws

nothing_left : (a : ℤ) → pos 0 +ℤ a ≡ a
nothing_left a = omega int_laws

-- A step before or after that moves nothing.
pub Shift-then_still :
    {h r m : Change} {s t u : Store}
    → Shift h r m s t
    → Shift still still still t u
    → Shift h r m s u
Shift-then_still a b =
    Shift-eq (λ k. nothing_right _) (λ k. nothing_right _) (λ k. nothing_right _) (Shift-trans a b)

pub still-then_Shift :
    {h r m : Change} {s t u : Store}
    → Shift still still still s t
    → Shift h r m t u
    → Shift h r m s u
still-then_Shift a b =
    Shift-eq (λ k. nothing_left _) (λ k. nothing_left _) (λ k. nothing_left _) (Shift-trans a b)

-- The write of a row and the movement that records it.
pub Shift-recorded :
    (k : Key) {x y q r : ℤ} {s t u : Store}
    → x ≡ q
    → y ≡ r
    → Shift (pulse k x) (pulse k y) still s t
    → Shift still still (pulse k q) t u
    → Shift (pulse k q) (pulse k r) (pulse k q) s u
Shift-recorded k ex ey a b =
    Shift-eq (λ j. nothing_right _ ∙ ap (λ v. pulse k v j) ex)
      (λ j. nothing_right _ ∙ ap (λ v. pulse k v j) ey) (λ j. nothing_left _) (Shift-trans a b)

-- The write of a row that the ledger does not record.
pub Shift-unrecorded :
    (k : Key) {x y r : ℤ} {s t : Store}
    → x ≡ pos 0
    → y ≡ r
    → Shift (pulse k x) (pulse k y) still s t
    → Shift still (pulse k r) still s t
Shift-unrecorded k ex ey a =
    Shift-eq (λ j. ap (λ v. pulse k v j) ex ∙ pulse_zero k j) (λ j. ap (λ v. pulse k v j) ey)
      (λ j. refl) a

pub reserved_still :
    (k : Key) {h m : Change} {s t : Store} → Shift h (pulse k (pos 0)) m s t → Shift h still m s t
reserved_still k a = Shift-eq (λ j. refl) (λ j. pulse_zero k j) (λ j. refl) a
