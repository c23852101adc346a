-- ===== src/Orders.antt =====
-- Sales orders: the state machine (StateMachine), the transition with its stock movements
-- (Transition), and what it keeps.
pub mod StateMachine
pub mod Transition
pub mod Drafts
pub mod Held
pub mod Lines
pub mod Consistency
pub mod DraftLaws
pub mod DraftCommands
pub mod TransitionLaws
pub mod LineProgress
pub mod Progress
pub mod Completion
