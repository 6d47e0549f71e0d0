-- ===== src/Tests.antt =====
-- Concrete servers and objects, and the theorems at them.
mod Server
mod Engines
mod Connections
mod Instances
mod Inventories
mod Adoptions
mod Reconciled
mod Rounds
mod Providers
mod Bindings
mod LostErrors
mod Starts
mod Progress
