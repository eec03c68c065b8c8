-- ===== src/Tests.antt =====
-- Runs of the model on small inputs, after tests/*.cpp, and each property at a concrete input.
mod Blocks
mod Contexts
mod Copies
mod Stranded
mod Runtimes
mod Pages
mod Residents
mod Histories
mod Results
