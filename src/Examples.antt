-- ===== src/Examples.antt =====
-- Concrete inputs for the theorems of the library: a station with one task and one run, the stub
-- executor of internal/executor/executor.go, and the outside code as constant functions.
mod Access
mod Auth
mod Publisher
mod Slurm
mod Inputs
mod Service
mod Cleanup
mod Submission
mod Store
mod Lifecycle
mod Parts
