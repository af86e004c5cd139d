-- ===== src/Examples.antt =====
-- Runs of the models, and each theorem at a concrete state.
mod Samples
mod Generations
mod Quotas
mod Ledgers
mod Arenas
mod Bundles
mod Lifecycles
mod Ranks
mod Barriers
