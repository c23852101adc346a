-- ===== src/Tests.antt =====
-- Runs of the model at concrete inputs.
mod Shop
mod Stock
mod Access
mod Csv
mod People
mod Payload
mod Drafts
mod Completion
mod Address
mod Deliveries
mod Checkout
mod SignIn
mod Guarded
