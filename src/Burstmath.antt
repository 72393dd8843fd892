-- ===== src/Burstmath.antt =====
-- src/burstmath.c: the plot of a nonce and the deadline that it gives, four or eight at a time.
pub mod Bytes
pub mod Shabal
pub mod Plot
pub mod Deadline
pub mod Reference
pub mod PlotCorrect
pub mod MaskCorrect
pub mod DeadlineCorrect
pub mod Header
pub mod Bounds
pub mod Scoop
pub mod Toy
mod Tests
