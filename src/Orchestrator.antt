-- ===== src/Orchestrator.antt =====
-- app/orchestration/task_orchestrator.py: what becomes of a leased task, from its workspace to its
-- result. The children are the state, the requests for sandboxes, the metadata of results, the life
-- of a task's sandbox, the steps and the run; then what is proved of them.
pub mod World
pub mod Request
pub mod Metadata
pub mod TaskSandbox
pub mod Steps
pub mod Run
pub mod Outside
pub mod Writes
pub mod Discipline
pub mod Lifecycle
pub mod Phases
pub mod Conclusion
pub mod Outcome
pub mod Ending
pub mod Terminal
pub mod Return
pub mod Liveness
pub mod Unprepared
pub mod Round
pub mod Leaks
mod Tests
