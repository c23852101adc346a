-- ===== src/Integrations/NewDrafts.antt =====
-- A store with one more draft, and what keeps it so.
use stock_pilot.Prelude.{
  ℕ, suc, ◌≡◌, refl, none, List, [], ◌∷◌, arith, length, Option-cases, inl, inr,
}
use stock_pilot.Store.Rows.{Key, draft, Order}
use stock_pilot.Store.Monad.{Store, Ensures, Ensures-map, Ensures-both}
use stock_pilot.Inventory.Shift.{Change, still}
use stock_pilot.Orders.Transition.{find_order, update_order}
use stock_pilot.Orders.Consistency.{IsUnique}
use stock_pilot.Orders.Drafts.{create_order}
use stock_pilot.Orders.DraftLaws.{IsDraftOf, IsDraftOf-eq, IsDraftOf-same}
use stock_pilot.Orders.DraftCommands.{create_order-created}

-- The order `id` is a new draft that asks for `asks`; nothing else is new among the orders, and the
-- deliveries stay.
pub record Drafts (id org warehouse : ℕ) (asks : Change) (s t : Store) : Type 0 where
  pub drafts : IsDraftOf id org warehouse asks s t
  pub one_more : length t.orders ≡ suc (length s.orders)
  pub deliveries_same : t.deliveries ≡ s.deliveries

pub update_order-length :
    (id : ℕ) (change : Order → Order) (os : List Order)
    → length (update_order id change os) ≡ length os
unfolding update_order
update_order-length id change [] = refl
update_order-length id change (o ∷ os) = ground (arith, update_order-length id change os)

pub Drafts-eq :
    (id org warehouse : ℕ) (asks new : Change) (s t : Store)
    → ((k : Key) → asks k ≡ new k)
    → Drafts id org warehouse asks s t
    → Drafts id org warehouse new s t
Drafts-eq id org warehouse asks new s t e d = record {
  drafts = IsDraftOf-eq id org warehouse asks new s t e d.drafts;
  one_more = d.one_more;
  deliveries_same = d.deliveries_same;
}

pub Drafts-same :
    (id org warehouse : ℕ) (asks : Change) (s s' t t' : Store)
    → s'.orders ≡ s.orders
    → s'.balances ≡ s.balances
    → s'.movements ≡ s.movements
    → s'.deliveries ≡ s.deliveries
    → t'.orders ≡ t.orders
    → t'.balances ≡ t.balances
    → t'.movements ≡ t.movements
    → t'.deliveries ≡ t.deliveries
    → Drafts id org warehouse asks s t
    → Drafts id org warehouse asks s' t'
Drafts-same id org warehouse asks s s' t t' a b c x a' b' c' x' d = record {
  drafts = IsDraftOf-same id org warehouse asks s s' t t' a b c a' b' c' d.drafts;
  one_more = rw (a, a') d.one_more;
  deliveries_same = rw (x, x') d.deliveries_same;
}

pub create_order-one_more :
    (o : Order) (s : Store)
    → Ensures
        (λ _ t. (length t.orders ≡ suc (length s.orders)) × (t.deliveries ≡ s.deliveries))
        (create_order o s)
unfolding create_order
create_order-one_more o s = elim (Option-cases (find_order o.id s.orders)) [
  | inr (x, e) ↦ rw e tt
  | inl e ↦ rw e (refl, refl)
]

pub create_order-Drafts :
    (o : Order) (s : Store)
    → o.status ≡ draft
    → o.lines ≡ []
    → IsUnique s.orders
    → Ensures
        (λ _ t.
          (find_order o.id s.orders ≡ none) × Drafts o.id o.organization o.warehouse still s t)
        (create_order o s)
create_order-Drafts o s d l u =
    Ensures-map _
      (λ _ t. (find_order o.id s.orders ≡ none) × Drafts o.id o.organization o.warehouse still s t)
      _ (λ _ t ((new, a), (b, c)). (new, record { drafts = a; one_more = b; deliveries_same = c }))
      (Ensures-both _ _ _ (create_order-created o s d l u) (create_order-one_more o s))
