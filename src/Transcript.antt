-- ===== src/Transcript.antt =====
-- internal/transcript/transcript.go: windows on a transcript, made of neighbouring chunks.
pub mod Window
pub mod Files
mod Listed
pub mod Shown
