-- ===== src/Tests.antt =====
-- Runs on small inputs, and instances of the theorems.
mod Authentication
mod Balancing
mod Caching
mod Directing
mod Forwarding
mod Gateway
mod Guarded
mod Health
mod Logging
mod Main
mod Monitoring
mod RateLimiting
mod Server
mod Serving
mod Stopping
mod Tokens
