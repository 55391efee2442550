-- ===== src/Worker.antt =====
-- app/workers/executor/execution_service.py: `ExecutionService`. What other processes commit while
-- the worker is at a network boundary is the argument `meanwhile` of its handlers.
pub mod Lease
pub mod Evaluate
pub mod Execute
pub mod Next
pub mod Loop
pub mod Paid
pub mod Stale
pub mod Retry
pub mod Authority
pub mod Attempt
pub mod Settle
pub mod Decide
pub mod Charged
pub mod Turn
pub mod Timeout
