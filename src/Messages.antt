-- ===== src/Messages.antt =====
-- pkg/adapters/messages: the adapters of the chat networks.
pub mod Irc
pub mod Batch
pub mod Handlers
pub mod Nats
pub mod Privmsg
pub mod Adapter
pub mod Discord
pub mod Results
pub mod Bot
mod Tests
