-- ===== src/Jobs.antt =====
-- internal/jobs/jobs.go: the registry of clone jobs. The goroutine of a job is seen through the
-- calls that it makes: the writes to its buffer and the end of its function.
pub mod Tail
pub mod Registry
mod Tests
