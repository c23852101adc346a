-- ===== src/Tests/Shop.antt =====
-- A small shop: one product with ten units on hand, three of them held by a confirmed order, and
-- a draft that asks for four.
use stock_pilot.Prelude.{true, false, none, some, [], ◌∷◌, arith}
use stock_pilot.Prelude.Int.{pos, ◌+ℤ◌}
use stock_pilot.Store.Rows.{
  Key, receipt, goods_receipt, OrderStatus, draft, confirmed, OrderLine, Order, Product,
}
use stock_pilot.Store.Table.{find, column, pulse}
use stock_pilot.Store.Monad.{Store}
use stock_pilot.Auth.Context.{AuthContext, MembershipContext, manager, owner, staff}
use stock_pilot.Inventory.Shift.{moved}
use stock_pilot.Inventory.Loops.{total}
use stock_pilot.Orders.Transition.{find_order, line_key}
use stock_pilot.Orders.Held.{held, holds, demand}
use stock_pilot.Orders.Consistency.{IsConsistent}
use text.Mathlib.Text.{◌==◌ as str_eq}
use stock_pilot.Prelude.{ℕ, ◌+◌, ◌*◌, ◌==◌, if◌then◌else◌}
use stock_pilot.Orders.Drafts.{Money, SalesOrderInput}

abbrev pub shelf : Key
shelf = record { organization = 1; warehouse = 10; product = 100 }

abbrev pub widget : Product
widget = record {
  id = 100;
  organization = 1;
  is_active = true;
  reorder_point = pos 5;
  sale_price = "2.50";
  name = "Widget";
  sku = "W-1";
}

abbrev pub line_of : ℕ → OrderLine
line_of q = record {
  product = 100;
  quantity = q;
  unit_price = "2.50";
  line_total = "10.00";
  product_name_snapshot = "Widget";
  sku_snapshot = "W-1";
}

abbrev pub order_of : ℕ → OrderStatus → ℕ → Order
order_of id status q = record {
  id = id;
  organization = 1;
  warehouse = 10;
  status = status;
  lines = line_of q ∷ [];
  subtotal = "10.00";
  customer = 8;
  customer_company_name = "Acme";
  customer_contact_name = none;
  customer_email = none;
  created_by = 3;
  note = none;
  confirmed_at = none;
  fulfilled_at = none;
  cancelled_at = none;
}

abbrev pub shop : Store
shop = record {
  warehouses = record { id = 10; organization = 1 } ∷ [];
  products = widget ∷ [];
  suppliers = record { id = 7; organization = 1; is_active = true } ∷ [];
  customers =
      record {
        id = 8;
        organization = 1;
        is_active = true;
        company_name = "Acme";
        contact_name = none;
        email = none;
        phone = none;
      }
      ∷ [];
  balances = (shelf, record { on_hand = pos 10; reserved = pos 3; version = 0 }) ∷ [];
  alerts = [];
  movements =
      record {
        key = shelf;
        type = receipt;
        quantity_delta = pos 10;
        on_hand_after = pos 10;
        reference_type = goods_receipt;
        reference_id = 20;
        reason = none;
        actor = 3;
      }
      ∷ [];
  orders = order_of 50 draft 4 ∷ order_of 51 confirmed 3 ∷ [];
  transitions = [];
  receipts = [];
  receipt_lines = [];
  audits = [];
  users =
      record { id = 3; email = "ann@shop.test"; password_hash = "p3"; display_name = "Ann" }
      ∷ record { id = 4; email = "bob@shop.test"; password_hash = "p4"; display_name = "Bob" }
      ∷ [];
  sessions =
      record {
        id = 50;
        token_hash = "h50";
        user = 3;
        membership = some 30;
        expires_at = 500;
        revoked_at = none;
        created_at = 1;
      }
      ∷ record {
        id = 51;
        token_hash = "h51";
        user = 4;
        membership = some 31;
        expires_at = 600;
        revoked_at = none;
        created_at = 2;
      }
      ∷ [];
  memberships =
      record {
        display_name = "Ann";
        id = 30;
        organization = 1;
        user = 3;
        email = "ann@shop.test";
        role = owner;
        created_at = 1;
      }
      ∷ record {
        display_name = "Bob";
        id = 31;
        organization = 1;
        user = 4;
        email = "bob@shop.test";
        role = owner;
        created_at = 1;
      }
      ∷ record {
        display_name = "Eve";
        id = 32;
        organization = 2;
        user = 5;
        email = "eve@shop.test";
        role = owner;
        created_at = 1;
      }
      ∷ [];
  invitations =
      record {
        id = 40;
        organization = 1;
        email = "cy@shop.test";
        role = staff;
        token_hash = "h40";
        invited_by = 3;
        expires_at = 90;
        accepted_at = none;
        revoked_at = none;
      }
      ∷ [];
  organizations = record { id = 1; is_demo = false } ∷ record { id = 2; is_demo = false } ∷ [];
  subscriptions = [];
  billing_webhook_events = [];
  billing_audits = [];
  idempotency_records = [];
  deliveries = [];
  next_id = 1000;
}

-- Money in cents, with a table of the prices and of the texts that the tests meet.
abbrev pub cents : Money
cents = record {
  Amount = ℕ;
  amount_of = λ t. if str_eq t "2.50" then 250 else 0;
  times = λ a n. a * n;
  plus = λ a b. a + b;
  nothing = 0;
  to_fixed = λ a. if a == 1000 then "10.00" else "5.00";
}

abbrev pub two_widgets : SalesOrderInput
two_widgets = record {
  customer = 8;
  lines = record { product = 100; quantity = 2 } ∷ [];
  note = none;
}

abbrev pub member : MembershipContext
member = record { id = 30; role = manager; organization = 1; is_demo = true }

abbrev pub clerk : AuthContext
clerk = record {
  session_id = 50;
  session_token_hash = "h50";
  user = 3;
  display_name = "Ann";
  email = "ann@shop.test";
  membership = some member;
}

pub shop-IsConsistent : IsConsistent shop
unfolding column find moved pulse held holds demand total line_key find_order ◌+ℤ◌
shop-IsConsistent = record {
  ledgered = λ k. ground arith;
  held_by_orders = λ k. ground arith;
  covered = λ k. ground arith;
  unique_orders = ground arith;
}
