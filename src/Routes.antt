-- ===== src/Routes.antt =====
-- The handlers of app/api.
pub mod World
pub mod Stub
pub mod Predict
pub mod History
pub mod Actual
pub mod Accounts
pub mod Operator
pub mod Journey
