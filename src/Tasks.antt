-- ===== src/Tasks.antt =====
-- pkg/task: tasks that run in the background, and the manager that keeps them.
pub mod Task
pub mod Manager
