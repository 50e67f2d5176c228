-- ===== src/Store.antt =====
-- The state the services and the workers share: the tables of prisma/schema.prisma, the queue of
-- outgoing mail, the requests sent, and the calls through which the code reaches them.
pub mod Table
pub mod Rows
pub mod Effects
pub mod Cascade
