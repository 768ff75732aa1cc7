-- ===== src/Controller.antt =====
-- internal/controller: the hub of mailboxes (hub.go), the conversions (convert.go) and the service
-- (server.go).
pub mod Hub
pub mod Channels
pub mod Mailboxes
pub mod History
pub mod Delivery
pub mod Convert
pub mod Sorted
pub mod Streams
pub mod Wiring
pub mod Reports
pub mod Server
pub mod Roundtrip
pub mod Requests
pub mod Service
pub mod Tests
