-- ===== src/Interpolation.antt =====
-- src/interpolation: what a client keeps to draw remote entities smoothly.
pub mod HistoryBuffer
pub mod AdaptiveDelay
pub mod ClockSync
pub mod VisualCorrection
pub mod HistoryTests
pub mod ClientTests
