-- ===== src/Tests.antt =====
-- Runs of the models at concrete inputs.
mod Logins
mod Registrations
mod Limits
mod Routes
mod Encoding
mod Challenges
mod Web
mod Codes
mod Files
mod Connections
