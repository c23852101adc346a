-- ===== src/Store/Rows.antt =====
-- The rows of apps/api/prisma/schema.prisma that the commands read and write. A UUID is a number,
-- since identifiers are only compared and sorted; a Decimal column is the text that `toFixed(2)`
-- gives; a quantity of a line is a natural number, a column that a signed delta reaches is a ℤ.
use Prim.Native.String.{String}
use stock_pilot.Prelude.{ℕ, ◌≡◌, ◌↔◌, Bool, true, ◌&&◌, Option, List, arith, ◌==◌}
use stock_pilot.Prelude.Int.{ℤ}

-- `@@unique([organizationId, warehouseId, productId])` of a balance.
pub record Key : Type 0 where
  pub organization : ℕ
  pub warehouse : ℕ
  pub product : ℕ

unfoldable pub key_eq : Key → Key → Bool
key_eq a b =
    (a.organization == b.organization) && ((a.warehouse == b.warehouse) && (a.product == b.product))

pub key_eq_iff : (a b : Key) → (key_eq a b ≡ true) ↔ (a ≡ b)
unfolding key_eq
key_eq_iff a b = ground arith

pub record Balance : Type 0 where
  pub on_hand : ℤ
  pub reserved : ℤ
  pub version : ℕ

pub data AlertStatus : Type 0 where
  alert_open alert_resolved : AlertStatus

pub record Alert : Type 0 where
  pub key : Key
  pub status : AlertStatus
  pub available_at_open : ℤ
  pub reorder_point : ℤ
  pub resolved_at : Option ℕ

pub data MovementType : Type 0 where
  receipt sale adjustment_in adjustment_out : MovementType

pub data ReferenceType : Type 0 where
  sales_order inventory_adjustment goods_receipt : ReferenceType

pub record Movement : Type 0 where
  pub key : Key
  pub type : MovementType
  pub quantity_delta : ℤ
  pub on_hand_after : ℤ
  pub reference_type : ReferenceType
  pub reference_id : ℕ
  pub reason : Option String
  pub actor : ℕ

pub data OrderStatus : Type 0 where
  draft confirmed fulfilled cancelled : OrderStatus

pub record OrderLine : Type 0 where
  pub product : ℕ
  pub quantity : ℕ
  pub unit_price : String
  pub line_total : String
  pub product_name_snapshot : String
  pub sku_snapshot : String

pub record Order : Type 0 where
  pub id : ℕ
  pub organization : ℕ
  pub warehouse : ℕ
  pub status : OrderStatus
  pub lines : List OrderLine
  pub subtotal : String
  pub customer : ℕ
  pub customer_company_name : String
  pub customer_contact_name : Option String
  pub customer_email : Option String
  pub created_by : ℕ
  pub note : Option String
  pub confirmed_at : Option ℕ
  pub fulfilled_at : Option ℕ
  pub cancelled_at : Option ℕ

pub record OrderTransition : Type 0 where
  pub sales_order : ℕ
  pub from_status : Option OrderStatus
  pub to_status : OrderStatus
  pub actor : ℕ
  pub organization : ℕ

pub record Warehouse : Type 0 where
  pub id : ℕ
  pub organization : ℕ

pub record Product : Type 0 where
  pub id : ℕ
  pub organization : ℕ
  pub is_active : Bool
  pub reorder_point : ℤ
  pub sale_price : String
  pub name : String
  pub sku : String

pub record Supplier : Type 0 where
  pub id : ℕ
  pub organization : ℕ
  pub is_active : Bool

pub record Customer : Type 0 where
  pub id : ℕ
  pub organization : ℕ
  pub is_active : Bool
  pub company_name : String
  pub contact_name : Option String
  pub email : Option String
  pub phone : Option String

pub record ReceiptLine : Type 0 where
  pub receipt_id : ℕ
  pub organization : ℕ
  pub product : ℕ
  pub quantity : ℕ
  pub unit_cost : Option String

pub record Receipt : Type 0 where
  pub id : ℕ
  pub organization : ℕ
  pub warehouse : ℕ
  pub supplier : ℕ
  pub receipt_number : String
  pub received_at : ℕ
  pub note : Option String
  pub actor : ℕ

pub data Role : Type 0 where
  manager owner staff : Role

-- A membership with the columns of its user that the queries include.
pub record Membership : Type 0 where
  pub display_name : String
  pub id : ℕ
  pub organization : ℕ
  pub user : ℕ
  pub email : String
  pub role : Role
  pub created_at : ℕ

pub record User : Type 0 where
  pub id : ℕ
  pub email : String
  pub password_hash : String
  pub display_name : String

pub record Session : Type 0 where
  pub id : ℕ
  pub token_hash : String
  pub user : ℕ
  pub membership : Option ℕ
  pub expires_at : ℕ
  pub revoked_at : Option ℕ
  pub created_at : ℕ

pub record Invitation : Type 0 where
  pub id : ℕ
  pub organization : ℕ
  pub email : String
  pub role : Role
  pub token_hash : String
  pub invited_by : ℕ
  pub expires_at : ℕ
  pub accepted_at : Option ℕ
  pub revoked_at : Option ℕ

pub data Plan : Type 0 where
  starter pro : Plan

pub data SubscriptionStatus : Type 0 where
  incomplete active past_due canceled unpaid trialing : SubscriptionStatus

pub record Organization : Type 0 where
  pub id : ℕ
  pub is_demo : Bool

pub record Subscription : Type 0 where
  pub organization : ℕ
  pub plan : Plan
  pub status : SubscriptionStatus
  pub stripe_customer : Option String
  pub stripe_subscription : Option String
  pub stripe_price : Option String
  pub current_period_end : Option ℕ
  pub cancel_at_period_end : Bool

-- An audit record of no user: a subscription that a webhook changed.
pub record BillingAudit : Type 0 where
  pub organization : ℕ
  pub plan : Plan
  pub status : SubscriptionStatus

-- The order of a webhook (`MockStorefrontOrderSchema`).
pub record StorefrontItem : Type 0 where
  pub quantity : ℕ
  pub sku : String

pub record StorefrontCustomer : Type 0 where
  pub company_name : String
  pub contact_name : Option String
  pub email : Option String
  pub phone : Option String

pub record StorefrontOrder : Type 0 where
  pub customer : StorefrontCustomer
  pub event_type : String
  pub external_order : String
  pub items : List StorefrontItem
  pub note : Option String

pub data DeliveryStatus : Type 0 where
  received processing succeeded failed : DeliveryStatus

pub record Delivery : Type 0 where
  pub id : ℕ
  pub organization : ℕ
  pub external_delivery : String
  pub event_type : String
  pub payload : StorefrontOrder
  pub status : DeliveryStatus
  pub attempts : ℕ
  pub last_error : Option String
  pub sales_order : Option ℕ
  pub processed_at : Option ℕ

-- `response_body` is the text of the JSON value.
pub record IdempotencyRecord : Type 0 where
  pub organization : ℕ
  pub scope : String
  pub key : String
  pub fingerprint : String
  pub response_body : String
  pub response_status : ℕ
  pub expires_at : ℕ

pub data AuditAction : Type 0 where
  member_role_changed : Role → AuditAction
  member_removed member_invited invitation_revoked invitation_accepted : AuditAction
  inventory_adjusted receipt_applied order_created order_updated : AuditAction
  order_created_from_integration integration_retried : AuditAction
  order_moved : OrderStatus → AuditAction

pub record Audit : Type 0 where
  pub action : AuditAction
  pub actor : ℕ
  pub entity_id : ℕ
  pub organization : ℕ
