-- ===== src/Tests.antt =====
-- Concrete runs of the program: each theorem at an input where its hypotheses hold.
mod Fixture
mod Documents
mod Loads
mod Tooling
mod Texts
mod Runs
mod Stores
mod Parts
mod Bindings
mod Frozen
mod Buttons
