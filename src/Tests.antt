-- ===== src/Tests.antt =====
-- Runs at concrete inputs of what the other modules prove.
mod Translation
mod Optimization
mod Execution
mod Loading
mod Hosted
mod Installed
mod Program
mod Background
