-- ===== src/Specification.antt =====
-- backend/specification.py: from a prompt and the symbols of the source to requirements and to the
-- acceptance checks that stand between a run and its success.
pub mod Targets
pub mod Model
pub mod Compile
pub mod Persist
pub mod Evaluate
mod Yields
mod Bounds
mod Complete
mod Totality
pub mod Settled
mod Gate
pub mod Verified
mod Sticky
mod Summary
mod Extract
mod Dotted
mod Examples
