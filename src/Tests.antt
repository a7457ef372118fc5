-- ===== src/Tests.antt =====
-- Instances of the theorems, and tests of the definitions on small inputs.
mod Events
mod Bodies
mod Rows
mod Calls
mod Endings
mod Pages
mod Captures
mod Exchanges
mod Settings
mod Requests
mod Starts
mod Mixes
