-- ===== src/Inventory.antt =====
-- Stock: the projection of a balance (Projection), alerts and their reconciliation
-- (Reconciliation), the locked row of a balance (Locks), and the commands (Adjustment, Receipt).
pub mod Projection
pub mod Bounds
pub mod Reconciliation
pub mod Locks
pub mod Shift
pub mod Steps
pub mod StepLaws
pub mod Loops
pub mod Adjustment
pub mod AdjustmentLaws
pub mod Outcome
pub mod Receipt
pub mod ReceiptLaws
