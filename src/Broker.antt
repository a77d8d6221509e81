-- ===== src/Broker.antt =====
-- The message broker of 02.
pub mod Append
pub mod Audience
pub mod Book
pub mod Chain
pub mod Client
mod ClientTests
pub mod Delivery
pub mod Generate
pub mod Header
pub mod Joining
pub mod Learning
pub mod Lines
pub mod Memory
pub mod Message
pub mod Naming
pub mod Process
pub mod Publishing
pub mod Refine
pub mod Sending
pub mod Serve
mod Tests
pub mod Shutdown
pub mod Subscriber
pub mod Subscribing
pub mod Topics
