-- ===== src/Runner.antt =====
-- fleet/runner: the machine gate for the kernel's todos, the writing of files by a model, and the
-- worker that runs one todo after another.
pub mod Gates
pub mod Verified
pub mod ModelWrite
pub mod Scope
pub mod Actions
pub mod Prompt
pub mod Worker
pub mod Once
pub mod Histories
pub mod Planned
pub mod Keeps
pub mod Posts
pub mod Proposals
pub mod Backed
pub mod Judged
pub mod Steps
pub mod Finishing
pub mod Done
mod Tests
