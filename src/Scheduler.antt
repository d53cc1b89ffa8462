-- ===== src/Scheduler.antt =====
-- internal/scheduler/scheduler.go: cron expressions, schedules and the jobs that run by them.
pub mod Cron
pub mod Jobs
