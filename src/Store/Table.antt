-- ===== src/Store/Table.antt =====
-- A table with one row for a key: `findUnique`, and `upsert` or `update` of one row.
use stock_pilot.Prelude.{◌≡◌, refl, Option, none, some, List, [], ◌∷◌, arith, if◌then◌else◌}
use stock_pilot.Prelude.Int.{ℤ, pos, ◌+ℤ◌, ◌-ℤ◌, int_laws}
use stock_pilot.Store.Rows.{Key, key_eq, key_eq_iff, Balance}

abbrev pub Table {ℓ} : Type ℓ → Type ℓ
Table V = List (Key × V)

module _ {ℓ} {V : Type ℓ} where
  unfoldable pub find : Key → Table V → Option V
  find k [] = none
  find k ((j, v) ∷ t) = if key_eq j k then some v else find k t

  unfoldable pub put : Key → V → Table V → Table V
  put k v [] = (k, v) ∷ []
  put k v ((j, w) ∷ t) = if key_eq j k then (k, v) ∷ t else (j, w) ∷ put k v t

  pub find-put :
      (k j : Key) (v : V) (t : Table V)
      → find j (put k v t) ≡ (if key_eq k j then some v else find j t)
  unfolding find put
  find-put k j v [] = refl
  find-put k j v ((i, w) ∷ t) =
      ground (arith, key_eq_iff k j, key_eq_iff i k, key_eq_iff i j, find-put k j v t)

-- A column at a key, 0 where there is no row.
unfoldable pub column : (Balance → ℤ) → Key → Table Balance → ℤ
column f k t = elim (find k t) [ none ↦ pos 0 | some b ↦ f b ]

-- A quantity at one key, and 0 at all others.
unfoldable pub pulse : Key → ℤ → Key → ℤ
pulse k q j = if key_eq k j then q else pos 0

-- A write moves the column by the difference at its own key, and nowhere else.
pub column-put :
    (f : Balance → ℤ) (k j : Key) (b : Balance) (t : Table Balance)
    → column f j (put k b t) ≡ column f j t +ℤ pulse k (f b -ℤ column f k t) j
unfolding column pulse
column-put f k j b t = grind (int_laws, find-put k j b t, key_eq_iff k j)

pub column-put_if :
    (f : Balance → ℤ) (k j : Key) (b : Balance) (t : Table Balance)
    → column f j (put k b t) ≡ (if key_eq k j then f b else column f j t)
unfolding column
column-put_if f k j b t = grind (arith, find-put k j b t)
