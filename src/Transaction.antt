-- ===== src/Transaction.antt =====
-- `CreateTransaction` (leafy.go): the coins that a payment spends, its fee and its change.
-- Each loop of the function is a function of the variables that it changes; `Create` runs them in
-- the order of the source. `Plan` is a specification without int64, without the transaction under
-- construction and without loops that carry state; `Refinement` and its children prove that the
-- code implements it, and `Payment` what a payment is worth.
pub mod Coins
pub mod Inputs
pub mod Create
pub mod Plan
pub mod Refinement
pub mod Payment
mod Tests
