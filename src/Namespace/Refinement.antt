-- ===== src/Namespace/Refinement.antt =====
-- The operations of internal/namespace.go do to the paths what Spec says.
pub mod Apart
pub mod Adding
pub mod Renaming
pub mod Moving
pub mod Steps
