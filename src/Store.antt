-- ===== src/Store.antt =====
-- The tables of server/prisma/schema.prisma, and the Prisma client as a parameter.
pub mod Tables
pub mod Client
pub mod Action
pub mod Trace
pub mod Laws
pub mod Returns
pub mod Memory
pub mod Rows
