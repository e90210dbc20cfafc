-- ===== src/Tests.antt =====
-- Examples: every theorem applied to a small concrete kernel.
mod Domains
mod Objects
mod Capabilities
mod Endpoints
mod Waiting
mod Scheduling
mod Timing
mod Frames
mod Lives
mod Storage
