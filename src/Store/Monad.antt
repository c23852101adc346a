-- ===== src/Store/Monad.antt =====
-- A transaction: the store is threaded through, an exception leaves the code at once, and
-- apps/api/src/database/tenant-database.ts commits the store or rolls it back.
use Prim.Native.String.{String}
use stock_pilot.Prelude.{
  ℕ, ◌≡◌, refl, Bool, true, false, Option, none, some, List, [], ◌∷◌, ⊤, if◌then◌else◌,
}
use stock_pilot.Store.Rows.{
  Balance, Alert, Movement, OrderStatus, Order, OrderTransition, Warehouse, Product, Supplier,
  Customer, Delivery, ReceiptLine, Receipt, Audit, Membership, Invitation, Organization,
  Subscription, BillingAudit, IdempotencyRecord, User, Session,
}
use stock_pilot.Store.Table.{Table}
use mathlib.Core.Path.{subst, sym}
use mathlib.Core.Option.{some-injective}

-- `next_id` is the next identifier that the database draws (`@default(uuid())`, `randomUUID`).
pub record Store : Type 0 where
  pub warehouses : List Warehouse
  pub products : List Product
  pub suppliers : List Supplier
  pub customers : List Customer
  pub balances : Table Balance
  pub alerts : List Alert
  pub movements : List Movement
  pub orders : List Order
  pub transitions : List OrderTransition
  pub receipts : List Receipt
  pub receipt_lines : List ReceiptLine
  pub audits : List Audit
  pub users : List User
  pub sessions : List Session
  pub memberships : List Membership
  pub invitations : List Invitation
  pub organizations : List Organization
  pub subscriptions : List Subscription
  pub billing_webhook_events : List String
  pub billing_audits : List BillingAudit
  pub idempotency_records : List IdempotencyRecord
  pub deliveries : List Delivery
  pub next_id : ℕ

-- The three refusals of `projectInventory`.
pub data InvariantError : Type 0 where
  not_integers on_hand_negative reserved_out_of_bounds : InvariantError

-- The exceptions that the commands throw.
pub data Error : Type 0 where
  membership_required warehouse_not_found supplier_not_found product_not_found : Error
  products_not_found customer_not_found partner_or_product_not_found order_not_found : Error
  no_balance balance_not_locked not_draft duplicate_key key_reused record_not_found
        numeric_overflow :
      Error
  member_not_found last_owner_required forbidden_role_change already_a_member : Error
  invitation_already_pending invitation_not_found invitation_email_mismatch : Error
  invitation_already_revoked invitation_already_accepted invitation_expired : Error
  duplicate_skus unknown_skus delivery_not_found invalid_payload retry_failed : Error
  plan_feature_unavailable billing_disabled_for_demo billing_not_configured : Error
  invalid_webhook_signature : Error
  too_many_attempts bad_credentials email_already_registered : Error
  invalid_workspace_membership authentication_required invalid_session : Error
  origin_not_allowed invalid_csrf_token forbidden_role type_error : Error
  too_many_requests : ℕ → Error
  plan_limit_reached : ℕ → Error
  invalid_transition : OrderStatus → OrderStatus → Error
  insufficient_stock : String → Error
  inventory_conflict : InvariantError → Error
  inventory_invariant : InvariantError → Error

pub data Result {ℓ} (A : Type ℓ) : Type ℓ where
  ok : A → Result A
  err : Error → Result A

abbrev pub M : Type 0 → Type 0
M A = Store → Result (A × Store)

module _ {A : Type 0} where
  abbrev pub pure : A → M A
  pure a s = ok (a, s)

  abbrev pub throw : Error → M A
  throw e s = err e

  abbrev pub gets : (Store → A) → M A
  gets f s = ok (f s, s)

  abbrev pub or_throw : Option A → Error → M A
  or_throw none e s = err e
  or_throw (some a) e s = ok (a, s)

infixl 5 ◌>>=◌ ◌>>◌
abbrev pub ◌>>=◌ : {A B : Type 0} → M A → (A → M B) → M B
◌>>=◌ m f s = elim (m s) [ ok (a, s') ↦ f a s' | err e ↦ err e ]

abbrev pub ◌>>◌ : {A B : Type 0} → M A → M B → M B
◌>>◌ m k s = elim (m s) [ ok (a, s') ↦ k s' | err e ↦ err e ]

abbrev pub modify : (Store → Store) → M ⊤
modify f s = ok (tt, f s)

-- `if (c) throw e`
abbrev pub throw_if : Bool → Error → M ⊤
throw_if c e s = if c then err e else ok (tt, s)

-- `for (const x of xs) body(x)`
unfoldable pub for_each : {A : Type 0} → List A → (A → M ⊤) → M ⊤
for_each [] body s = ok (tt, s)
for_each (x ∷ xs) body s = elim (body x s) [ ok (u, s') ↦ for_each xs body s' | err e ↦ err e ]

-- `withTenant`: the transaction's store if the work returns, the store before it if it throws.
unfoldable pub with_tenant : {A : Type 0} → M A → Store → Result A × Store
with_tenant work s = elim (work s) [ ok (a, s') ↦ (ok a, s') | err e ↦ (err e, s) ]

-- What holds of the result and the store where the call returns.
abbrev pub Ensures : {A : Type 0} → (A → Store → Type 0) → Result (A × Store) → Type 0
Ensures P (ok (a, s)) = P a s
Ensures P (err e) = ⊤

-- A call that returns, with what holds of the result and the store then.
abbrev pub Achieves : {A : Type 0} → (A → Store → Type 0) → Result (A × Store) → Type 0
Achieves P (ok (a, s)) = P a s
Achieves P (err e) = ⊥

pub Achieves-bind :
    {A B : Type 0} (P : A → Store → Type 0) (Q : B → Store → Type 0) (r : Result (A × Store))
    (f : A → M B)
    → Achieves P r
    → ((a : A) (s : Store) → P a s → Achieves Q (f a s))
    → Achieves Q (elim r [ ok (a, s) ↦ f a s | err e ↦ err e ])
Achieves-bind P Q (ok (a, s)) f h k = k a s h
Achieves-bind P Q (err e) f h k = absurd h

pub Achieves-map :
    {A : Type 0} (P Q : A → Store → Type 0) (r : Result (A × Store))
    → ((a : A) (s : Store) → P a s → Q a s)
    → Achieves P r
    → Achieves Q r
Achieves-map P Q (ok (a, s)) f h = f a s h
Achieves-map P Q (err e) f h = h

-- What a call does where it returns, of a call that returns.
pub Achieves-both :
    {A : Type 0} (P Q : A → Store → Type 0) (r : Result (A × Store))
    → Achieves P r
    → Ensures Q r
    → Achieves (λ a s. P a s × Q a s) r
Achieves-both P Q (ok (a, s)) h k = (h, k)
Achieves-both P Q (err e) h k = h

pub Achieves-Ensures :
    {A : Type 0} (P : A → Store → Type 0) (r : Result (A × Store)) → Achieves P r → Ensures P r
Achieves-Ensures P (ok (a, s)) h = h
Achieves-Ensures P (err e) h = tt

-- A loop returns if each round does, by an invariant of the rounds that are left.
pub for_each-Achieves :
    {A : Type 0} (I : List A → Store → Type 0) (body : A → M ⊤)
    → ((l : A) (ls : List A) (s : Store) → I (l ∷ ls) s → Achieves (λ _ t. I ls t) (body l s))
    → (ls : List A) (s : Store) → I ls s
    → Achieves (λ _ t. I [] t) (for_each ls body s)
unfolding for_each
for_each-Achieves I body round [] s h = h
for_each-Achieves I body round (l ∷ ls) s h =
    Achieves-bind (λ _ t. I ls t) (λ _ t. I [] t) (body l s) (λ _. for_each ls body)
      (round l ls s h) (λ _ t i. for_each-Achieves I body round ls t i)

pub unguarded-bind :
    {B : Type 0} (c : Bool) (x : Error) (Q : B → Store → Type 0) (f : ⊤ → M B) (s : Store)
    → c ≡ false
    → Achieves Q (f tt s)
    → Achieves Q (elim (throw_if c x s) [ ok (a, t) ↦ f a t | err e ↦ err e ])
unguarded-bind true x Q f s h k = cc
unguarded-bind false x Q f s h k = k

-- A call whose result is known.
pub returned-bind :
    {A B : Type 0} (Q : B → Store → Type 0) (r : Result (A × Store)) (f : A → M B) (a : A)
    (s : Store)
    → r ≡ ok (a, s)
    → Achieves Q (f a s)
    → Achieves Q (elim r [ ok (b, t) ↦ f b t | err e ↦ err e ])
returned-bind Q r f a s h k = rw h k

pub found-bind :
    {A B : Type 0} (o : Option A) (x : Error) (Q : B → Store → Type 0) (f : A → M B) (s : Store)
    (a : A)
    → o ≡ some a
    → Achieves Q (f a s)
    → Achieves Q (elim (or_throw o x s) [ ok (b, t) ↦ f b t | err e ↦ err e ])
found-bind none x Q f s a h k = cc
found-bind (some b) x Q f s a h k = subst (λ c. Achieves Q (f c s)) (some-injective a b (sym h)) k

-- The rule for a call followed by the rest of the code.
pub Ensures-bind :
    {A B : Type 0} (P : A → Store → Type 0) (Q : B → Store → Type 0) (r : Result (A × Store))
    (f : A → M B)
    → Ensures P r
    → ((a : A) (s : Store) → P a s → Ensures Q (f a s))
    → Ensures Q (elim r [ ok (a, s) ↦ f a s | err e ↦ err e ])
Ensures-bind P Q (ok (a, s)) f h k = k a s h
Ensures-bind P Q (err e) f h k = tt

-- A transaction that throws leaves the store as it was.
pub with_tenant_rollback :
    {A : Type 0} (work : M A) (s : Store) {e : Error}
    → (with_tenant work s).0 ≡ err e
    → (with_tenant work s).1 ≡ s
unfolding with_tenant
with_tenant_rollback {A} work s {e} h = go (work s) h
  where
    go :
        (r : Result (A × Store))
        → (elim r as (λ _. Result A × Store) [ ok (a, s') ↦ (ok a, s') | err x ↦ (err x, s) ]).0
          ≡ err e
        → (elim r as (λ _. Result A × Store) [ ok (a, s') ↦ (ok a, s') | err x ↦ (err x, s) ]).1 ≡ s
    go (ok (a, s')) h = cc
    go (err x) h = refl

-- What holds before a transaction and of the store where it commits holds after it.
pub with_tenant-keeps :
    {A : Type 0} (P : Store → Type 0) (work : M A) (s : Store)
    → P s
    → Ensures (λ _ t. P t) (work s)
    → P (with_tenant work s).1
unfolding with_tenant
with_tenant-keeps {A} P work s p h = go (work s) h
  where
    go :
        (r : Result (A × Store))
        → Ensures (λ _ t. P t) r
        → P (elim r as (λ _. Result A × Store) [ ok (a, s') ↦ (ok a, s') | err x ↦ (err x, s) ]).1
    go (ok (a, s')) h = h
    go (err x) h = p

-- A transaction that returns commits what its work leaves.
pub with_tenant-commits :
    {A : Type 0} (P : A → Store → Type 0) (work : M A) (s : Store) (a : A)
    → (with_tenant work s).0 ≡ ok a
    → Ensures P (work s)
    → P a (with_tenant work s).1
unfolding with_tenant
with_tenant-commits {A} P work s a e h = go (work s) e h
  where
    go :
        (r : Result (A × Store))
        → (elim r as (λ _. Result A × Store) [ ok (b, t) ↦ (ok b, t) | err x ↦ (err x, s) ]).0
          ≡ ok a
        → Ensures P r
        → P a (elim r as (λ _. Result A × Store) [ ok (b, t) ↦ (ok b, t) | err x ↦ (err x, s) ]).1
    go (ok (b, t)) e h = let i : b ≡ a = cc in subst (λ x. P x t) i h
    go (err x) e h = cc

pub Ensures-ok :
    {A : Type 0} (P : A → Store → Type 0) (r : Result (A × Store)) {a : A} {s : Store}
    → r ≡ ok (a, s)
    → Ensures P r
    → P a s
Ensures-ok P (ok (a, s)) e h = subst (λ r. Ensures P r) e h
Ensures-ok P (err x) e h = cc

pub Ensures-map :
    {A : Type 0} (P Q : A → Store → Type 0) (r : Result (A × Store))
    → ((a : A) (s : Store) → P a s → Q a s)
    → Ensures P r
    → Ensures Q r
Ensures-map P Q (ok (a, s)) f h = f a s h
Ensures-map P Q (err e) f h = tt

pub Ensures-both :
    {A : Type 0} (P Q : A → Store → Type 0) (r : Result (A × Store))
    → Ensures P r
    → Ensures Q r
    → Ensures (λ a s. P a s × Q a s) r
Ensures-both P Q (ok (a, s)) h k = (h, k)
Ensures-both P Q (err e) h k = tt

-- A lookup that throws where nothing is found.
pub or_throw-bind :
    {A B : Type 0} (o : Option A) (x : Error) (Q : B → Store → Type 0) (f : A → M B) (s : Store)
    → ((a : A) → o ≡ some a → Ensures Q (f a s))
    → Ensures Q (elim (or_throw o x s) [ ok (a, t) ↦ f a t | err e ↦ err e ])
or_throw-bind none x Q f s rest = tt
or_throw-bind (some a) x Q f s rest = rest a refl

-- A guard that throws where it holds.
pub throw_if-bind :
    {B : Type 0} (c : Bool) (x : Error) (Q : B → Store → Type 0) (f : ⊤ → M B) (s : Store)
    → (c ≡ false → Ensures Q (f tt s))
    → Ensures Q (elim (throw_if c x s) [ ok (a, t) ↦ f a t | err e ↦ err e ])
throw_if-bind true x Q f s rest = tt
throw_if-bind false x Q f s rest = rest refl
