-- ===== src/Inventory/ReceiptLaws.antt =====
-- A receipt adds its lines to the stock on hand and to the ledger.
use stock_pilot.Prelude.{
  ℕ, ◌≡◌, refl, some, List, map, length, ◌==◌, ⊤, sort_by, inl, inr, Bool-cases, Option-cases,
}
use stock_pilot.Prelude.Int.{pos, ◌-ℤ◌}
use stock_pilot.Store.Rows.{Key, Product, ReceiptLine, Warehouse}
use stock_pilot.Store.Table.{find, pulse}
use stock_pilot.Store.Monad.{Store, Ensures, Ensures-bind, Ensures-map}
use stock_pilot.Auth.Context.{AuthContext}
use stock_pilot.Inventory.Steps.{
  state_of, find_warehouse, find_active_supplier, fresh_id, record_audit,
}
use stock_pilot.Inventory.Shift.{
  Change, Shift, Shift-eq, Shift-still, Shift-then_still, still-then_Shift, Shift-recorded,
  reserved_still, still,
}
use stock_pilot.Inventory.StepLaws.{
  reconcile_balance-Shift, create_movement-Shift, update_balance-Shift,
  lock_inventory_balance-Shift, or_invariant-bind, Covers-kept, difference, self_difference,
}
use stock_pilot.Inventory.Loops.{total, unmoved, total-unmoved, total-sort_by, for_each-Shift}
use stock_pilot.Inventory.Receipt.{
  ReceiptLineInput, ReceiptInput, find_active_products, product_by_id, create_receipt_line,
  create_receipt, receive_line, receive_lines, apply_receipt_transaction,
}

abbrev pub received_line : ℕ → ℕ → ReceiptLineInput → Change
received_line org warehouse l =
    pulse (record { organization = org; warehouse = warehouse; product = l.product })
      (pos l.quantity)

-- The quantities of a receipt, by balance.
unfoldable pub received : ℕ → ℕ → ReceiptInput → Change
received org warehouse input = total (received_line org warehouse) input.lines

create_receipt_line-Shift :
    (l : ReceiptLine) (s : Store)
    → Ensures (λ _ t. Shift still still still s t) (create_receipt_line l s)
unfolding create_receipt_line
create_receipt_line-Shift l s = Shift-still s _ refl refl refl

receive_line-Shift :
    (now actor org warehouse : ℕ) (products : List Product) (id : ℕ) (l : ReceiptLineInput)
    (s : Store)
    → let d = received_line org warehouse l in
      Ensures (λ _ t. Shift d still d s t) (receive_line now actor org warehouse products id l s)
unfolding receive_line
receive_line-Shift now actor org warehouse products id l s =
    let k : Key = record { organization = org; warehouse = warehouse; product = l.product } in
    let Q : ⊤ → Store → Type 0 =
      λ _ t. Shift (received_line org warehouse l) still (received_line org warehouse l) s t in
    elim (Option-cases (product_by_id l.product products)) [
      | inl e ↦ rw e tt
      | inr (p, e) ↦ rw e (
          Ensures-bind (λ b t. (find k t.balances ≡ some b) × Shift still still still s t) Q _ _
            (lock_inventory_balance-Shift k s)
            (λ b t (found, locked). or_invariant-bind (state_of b) _ Q _ t (λ next fits.
              Ensures-bind
                (λ row u.
                  ((row.on_hand ≡ next.on_hand) × (row.reserved ≡ b.reserved))
                  × Shift (pulse k (next.on_hand -ℤ b.on_hand)) (pulse k (b.reserved -ℤ b.reserved))
                      still t u)
                Q _ _ (update_balance-Shift k _ b t found (λ _. Covers-kept _ _ next fits refl))
                (λ row u (_, written).
                  Ensures-bind (λ _ v. Shift still still still u v) Q _ _
                    (create_receipt_line-Shift _ u)
                    (λ _ v added.
                      Ensures-bind (λ _ w. Shift still still (pulse k (pos l.quantity)) v w) Q _ _
                        (create_movement-Shift _ v)
                        (λ _ w recorded.
                          Ensures-bind (λ _ x. Shift still still still w x) Q _ _
                            (reconcile_balance-Shift now _ w)
                            (λ _ x alert. still-then_Shift locked (
                              reserved_still k (
                                Shift-recorded k (difference _ _ _ fits.on_hand_sum)
                                  (self_difference b.reserved) (Shift-then_still written added)
                                  (Shift-then_still recorded alert))))))))))
    ]

sorted-received :
    (org warehouse : ℕ) (input : ReceiptInput) (k : Key)
    → total (received_line org warehouse) (sort_by (λ l. l.product) input.lines) k
      ≡ received org warehouse input k
unfolding received
sorted-received org warehouse input k =
    total-sort_by (received_line org warehouse) (λ l. l.product) input.lines k

receive_lines-Shift :
    (now : ℕ) (auth : AuthContext) (org warehouse : ℕ) (products : List Product)
    (input : ReceiptInput) (s : Store)
    → let d = received org warehouse input in
      Ensures (λ _ t. Shift d still d s t) (receive_lines now auth org warehouse products input s)
unfolding receive_lines fresh_id create_receipt record_audit
receive_lines-Shift now auth org warehouse products input s =
    let one = received_line org warehouse in
    let lines = sort_by (λ (l : ReceiptLineInput). l.product) input.lines in
    let Q : ℕ → Store → Type 0 =
      λ _ u. Shift (received org warehouse input) still (received org warehouse input) s u in
    Ensures-bind (λ _ u. Shift (total one lines) (total unmoved lines) (total one lines) _ u) Q _ _
      (for_each-Shift one unmoved one _
        (receive_line-Shift now auth.user org warehouse products s.next_id) lines _)
      (λ _ u a. still-then_Shift (Shift-still s _ refl refl refl) (
        Shift-then_still
          (Shift-eq (sorted-received org warehouse input) (total-unmoved lines)
            (sorted-received org warehouse input) a)
          (Shift-still u _ refl refl refl)))

-- A receipt that goes through adds the quantity of each line to the stock on hand and to the ledger
-- of its balance in the organization's warehouse; the stock held and the orders are as before, and
-- covered balances stay covered.
pub apply_receipt_transaction-Shift :
    (now : ℕ) (auth : AuthContext) (org : ℕ) (input : ReceiptInput) (s : Store) {w : Warehouse}
    → find_warehouse org s.warehouses ≡ some w
    → Ensures
        (λ _ t. Shift (received org w.id input) still (received org w.id input) s t)
        (apply_receipt_transaction now auth org input s)
unfolding apply_receipt_transaction
apply_receipt_transaction-Shift now auth org input s {w} found =
    let ids = map (λ (l : ReceiptLineInput). l.product) input.lines in
    let products = find_active_products org ids s.products in
    elim (Option-cases (find_active_supplier org input.supplier s.suppliers)) [
      | inl e ↦ rw found (rw e tt)
      | inr (p, e) ↦ rw found (
          rw e (elim (Bool-cases (length products == length ids)) [
            | inr short ↦ rw short tt
            | inl all ↦ rw all (receive_lines-Shift now auth org w.id products input s)
          ]))
    ]

-- A receipt keeps any property of the store that such a shift keeps.
pub apply_receipt_transaction-keeps :
    (P : Store → Type 0)
    → ((m : Change) (s t : Store) → Shift m still m s t → P s → P t)
    → (now : ℕ) (auth : AuthContext) (org : ℕ) (input : ReceiptInput) (s : Store) → P s
    → Ensures (λ _ t. P t) (apply_receipt_transaction now auth org input s)
unfolding apply_receipt_transaction
apply_receipt_transaction-keeps P keep now auth org input s h =
    elim (Option-cases (find_warehouse org s.warehouses)) [
      | inl e ↦ rw e tt
      | inr (w, e) ↦
          Ensures-map _ (λ _ t. P t) _ (λ _ t a. keep _ s t a h)
            (apply_receipt_transaction-Shift now auth org input s {w = w} e)
    ]
