-- ===== src/Report.antt =====
-- cmd/local-report-runner/main.go: the attribution of clock time to a load window. Its pure functions
-- on intervals, phases and classes. A time is a number of nanoseconds, 0 the zero time of Go; a
-- duration stays in nanoseconds where the source converts it to seconds.
pub mod Merge
pub mod Phases
pub mod Attribution
mod Measure
pub mod Union
pub mod Classes
pub mod Table
mod Tests
