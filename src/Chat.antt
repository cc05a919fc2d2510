-- ===== src/Chat.antt =====
-- The chat server of hw5/src: users, mailboxes, clients and the two registries.
pub mod Heap
pub mod User
pub mod UserRegistry
pub mod Mailbox
pub mod Client
pub mod Login
pub mod Packets
pub mod Service
pub mod Protocol
mod Tests
