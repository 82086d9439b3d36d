-- ===== src/Progress.antt =====
-- internal/progress: the bar, and sizes for people.
pub mod Format
pub mod Bar
