-- ===== src/Lib.antt =====
-- StockPilot: inventory, orders and access rules of the API server (apps/api/src).
--
-- StockPilot is a multi-tenant stock system. A request reaches a NestJS service, which opens a
-- transaction for the caller's organization (`TenantDatabase.withTenant`), locks the rows that
-- the command touches, projects the new quantities, writes balances, ledger movements, alerts
-- and audit records, and commits. A thrown error rolls all of it back.
--
-- Prelude: numbers, lists and the integers over the native natural numbers, and a JavaScript Map
--   that is kept within a cap (Prelude/Map), which the rate limiter and the throttle share.
-- Store: the rows of one organization (Store/Rows: apps/api/prisma/schema.prisma as read by the
--   services, packages/contracts/src), tables as association lists (Store/Table) and the
--   transaction monad with its errors (Store/Monad: apps/api/src/database/tenant-database.ts).
-- Auth: the session context and `requireMembership` (Auth/Context: auth/auth-context.ts), the
--   permissions (Auth/Rbac: auth/rbac.ts), the rate limiter (Auth/RateLimiter:
--   auth/rate-limiter.ts), CIDR matching (Auth/Cidr: auth/cidr.ts) and the address of a client
--   behind proxies (Auth/ClientAddress: auth/client-address.ts). Prelude/Bits has the laws of the
--   bit masks. Sign-ins: the throttle of failed ones (Auth/Throttle: auth/auth-throttle.service.ts),
--   sessions (Auth/Sessions: auth/auth.service.ts, auth/session.guard.ts,
--   auth/session-credentials.ts), signing up and in (Auth/Login: auth/auth.service.ts) and the four
--   guards of a request in their order (Auth/Guards: auth/auth.module.ts and the guards beside it).
--   Guards/Conditions says what each of them asks for.
--   Sessions/Calls has sequences of the calls that write sessions; the other files below Sessions,
--   Login and Guards prove what they do.
-- Inventory: `projectInventory` and the low-stock rules (Inventory/Projection:
--   inventory/inventory-projection.ts), `reconcileBalance` (Inventory/Reconciliation), the row
--   lock (Inventory/Locks), adjustments (Inventory/Adjustment) and receipts (Inventory/Receipt).
--   Inventory/Shift describes what a command may change: the movements it adds to the ledger and
--   the change of each balance. The files with Laws in their names prove a command to be such a
--   shift.
-- Orders: the state machine (Orders/StateMachine: orders/order-state-machine.ts) and the
--   transitions (Orders/Transition: orders/order-transition.service.ts and order-lock.ts). Held
--   and Lines count the stock that orders hold, Consistency relates it to the balances. Drafts has
--   the commands on drafts (orders/order-draft.service.ts, orders.service.ts), DraftLaws and
--   DraftCommands what they do; LineProgress, Progress and Completion show when a transition of an
--   order goes through.
-- Commands: sequences of requests, each one committed or rolled back.
-- Imports: the CSV reader and printer (Imports/Csv: imports/product-csv-parser.ts and
--   product-csv-serializer.ts).
-- Billing: the effective plan of a workspace (billing/plan-entitlements.ts and
--   billing-status.service.ts), the checkout (Billing/Checkout: billing/billing.service.ts) and the
--   webhook of the payment provider (Billing/Webhook: billing.service.ts and the function
--   stockpilot_sync_subscription of
--   apps/api/prisma/migrations/20260806140000_add_billing/migration.sql); Webhook/Once has its
--   sequences of events.
-- Team: members (Team/Membership: team/membership.service.ts), invitations (Team/Invitation:
--   team/invitation.service.ts) and sequences of requests on them (Team/Requests). Team/Owners has
--   the invariant of a team; the files with Laws in their names prove it of each call.
-- Integrations: the orders of an external shop (Integrations/StorefrontDraft:
--   integrations/storefront-order-draft.ts), a delivery and its attempts (Integrations/Delivery:
--   integrations/integration-delivery.service.ts, integration-retry.service.ts) and the calls under
--   their idempotency keys (Integrations/External: integration-delivery.service.ts,
--   integration.service.ts). StorefrontLaws and NewDrafts show what such an order does to the
--   store. Integrations/Steps is the state machine of a delivery, Reaches where it leads, Outcomes
--   what an attempt does; Moves, Transactions and Sequences show that all calls follow the machine.
-- Idempotency: `executeIdempotent` and the canonical form of a payload
--   (idempotency/idempotency.ts).
-- Tests: a concrete shop, on which the definitions run.
--
-- A row identifier (a UUID) is a natural number, and a fresh one is a number that the ledger
-- does not use. A quantity is an exact integer: `projectInventory` refuses whatever a JavaScript
-- number does not represent, and the Int column of a balance refuses what does not fit 32 bits
-- (`fits_int4`). The version of a balance is a natural number without that bound. The CHECK
-- constraints of the database on the quantity and the reason of a movement are not modelled: the
-- input schemas of packages/contracts/src are what keeps such a request away. Prices and reasons
-- are text. The clock and the parsed input are arguments.
-- Every loop is structural, so there is no fuel.
--
-- `toLowerCase`, `toUpperCase`, `trim`, `Number`, the arithmetic on money and `toFixed`, the token
-- and payload hashes, the password hash and its check, `localeCompare` and `JSON.stringify` are
-- parameters, and so are the parser of a webhook's payload, the text of an error and the calls of
-- the payment provider. The number of an order (`orderNumber`) and the JSON details of an audit
-- record are left out.
--
-- Inventory and orders see the rows of one organization: row-level security is a policy of the
-- database and is not modelled there; the purge of expired idempotency records is limited to them.
-- Nor are locks between two transactions: `FOR UPDATE` and the advisory locks make the commands on
-- one balance, team or key run one after the other, as the sequences of Commands and Team/Requests
-- do. Queries, HTTP controllers, the web application, the demo login, cookies, the signatures of
-- webhooks and the job queue are left out.
pub mod Prelude
pub mod Store
pub mod Auth
pub mod Inventory
pub mod Orders
pub mod Commands
pub mod Imports
pub mod Billing
pub mod Team
pub mod Integrations
pub mod Idempotency
mod Tests
