-- ===== src/Integrations.antt =====
-- The orders of an external shop: the draft that a webhook's order becomes, and the delivery that
-- records each attempt at it (apps/api/src/integrations).
pub mod StorefrontDraft
mod NewDrafts
pub mod StorefrontLaws
pub mod Delivery
pub mod Steps
pub mod Outcomes
pub mod Moves
pub mod External
pub mod Reaches
pub mod Transactions
pub mod Sequences
