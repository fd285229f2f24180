-- ===== src/Websocket.antt =====
-- internal/adapters/websocket: publication to monitors, and the queue of submitted events.
pub mod Filter
pub mod Handler
pub mod Publisher
pub mod Worker
pub mod Counts
pub mod Dispatcher
pub mod Message
pub mod Protocol
pub mod Greeting
pub mod Replies
pub mod Connection
