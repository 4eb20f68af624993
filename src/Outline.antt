-- ===== src/Outline.antt =====
-- internal/outline: the bullet tree, its comparison with a baseline, and the edits of the editor.
pub mod Tree
pub mod Diff
pub mod Quote
pub mod Service
