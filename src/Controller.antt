-- ===== src/Controller.antt =====
-- agentpipeline-operator/internal/controller: the reconciler and its stage handler.
pub mod Env
pub mod Stages
pub mod Handler
pub mod Outcome
pub mod Updates
pub mod Reconciler
pub mod Server
pub mod Steps
pub mod Writes
pub mod Endings
pub mod Ends
pub mod Refinement
pub mod Progress
pub mod Current
pub mod Invariant
pub mod Work
pub mod Dependencies
pub mod Liveness
pub mod Outputs
pub mod Keeping
pub mod Storing
pub mod Completion
pub mod Deliveries
pub mod Handover
pub mod Distinct
pub mod Delivery
pub mod Rounds
pub mod Beginning
pub mod WholeRuns
pub mod EndToEnd
pub mod Dispatch
pub mod Selection
pub mod Durable
pub mod Budget
pub mod Earned
pub mod Waiting
pub mod Stuck
pub mod Collision
pub mod Contexts
pub mod Requests
pub mod Runs
pub mod Recovery
pub mod Asking
pub mod Requeue
