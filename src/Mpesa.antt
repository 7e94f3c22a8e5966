-- ===== src/Mpesa.antt =====
-- The payments of M-Pesa: server/service/mpesa.go and server/handler/mpesa_callback.go.
pub mod Orders
pub mod Payment
pub mod Callback
pub mod Phone
pub mod Parse
pub mod Parsed
mod Tests
