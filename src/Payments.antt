-- ===== src/Payments.antt =====
-- The payments to suppliers (app/api/finance/payment_provider): receipts, groups, e-mails.
pub mod Text
pub mod Amounts
pub mod Fields
pub mod Data
pub mod Columns
pub mod Consulta
pub mod Sections
pub mod Parser
mod Fixtures
mod Tests
pub mod Filenames
pub mod Groups
pub mod Email
pub mod Attachments
pub mod Providers
pub mod Preview
pub mod Quantize
pub mod Enqueue
