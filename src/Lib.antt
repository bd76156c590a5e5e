-- ===== src/Lib.antt =====
-- A verification library for the agent-pipeline operator of Cluster69, the Kubernetes operator in
-- agentpipeline-operator/: a pipeline is a list of stages, each run by an agent, and the output
-- of a stage is an input of the next.
--
-- The program's parts, and the files that model them:
-- - api/v1alpha1/agentpipeline_types.go: the resource `AgentPipeline`, its spec and its status,
--   in Api.antt, with the fields of the Go structs.
-- - internal/controller/agentpipeline_controller.go: the reconciler. `Reconcile` and its handlers
--   are in Controller/Reconciler.antt and its children, what they write through their pointers in
--   Controller/Updates.antt, how they return in Controller/Outcome.antt. A method that goes on
--   behind a call is split at the call: `startStage` is `start_stage`, `recover_or_execute`,
--   `execute_stage`, `prompt_stage`, `run_stage`, `handle_answer` and `dispatch_result`.
-- - internal/controller/stage_handler.go: the choice of stages, their dependencies and policies
--   in Controller/Stages.antt, prompts and outputs in Controller/Handler.antt.
-- - internal/runner: requests, results and the interface in Runner/Types.antt; the A2A runner in
--   Runner/A2a.antt, its event stream in Runner/Sse.antt, what it uses of bufio.Scanner and of
--   the package strings in Runner/Scanner.antt and Runner/Strings.antt; the mock runner in
--   Runner/Mock.antt.
-- - cmd/main.go: the flags and the options in Operator/Options.antt, the start of the operator,
--   with `SetupWithManager`, in Operator/Startup.antt; api/v1alpha1/groupversion_info.go in
--   Operator/Scheme.antt. Their proofs are Operator/Servers.antt and Operator/Start.antt.
-- - api/v1alpha1/zz_generated.deepcopy.go: deep copies over a heap of typed cells. The resource
--   as it lies in memory is Copies/Memory.antt with Copies/Views.antt, the functions are
--   Copies/Copy.antt and Copies/DeepCopy.antt, what memory stands for is Copies/Denotation.antt.
--   The proofs are Regions, Combinators, Pointers, Maps, Structs, Pipelines and Independence in
--   Copies/.
-- All these paths are under agentpipeline-operator/.
--
-- How they interact: the reconciler calls the Kubernetes API, the agent runner and the clock. In
-- the model (Controller/Env.antt) each such call but those of the clock is added to a trace, and
-- an `Env` answers it by a function of the trace so far, so that it may answer anything, at any
-- time, errors included. The object that the API holds is read off the trace
-- (Controller/Server.antt): an update writes all but the status, a status update the status
-- alone. The runner's HTTP client, JSON and context are the record `Http`. What is asked of these
-- parameters is stated where it is used: that the finalizer helpers change the finalizers alone
-- (`FinalizerLaws`), that a read gives what was written last and nobody else writes
-- (`IsConsistent`), that no write is refused (`Fault`), that a ConfigMap is what was written last
-- (`KeepsConfigMaps`) and that its writes are accepted (`AcceptsConfigMaps`), and that
-- apimachinery's own deep copies are such (`MachineryCopies`).
--
-- The specification is the step relation of Controller/Steps.antt. The proofs: what each method
-- writes (Writes, Endings, Ends), that a pass is a step (Refinement), the shape of a running
-- pipeline (Progress, Current) and its invariant (Invariant), its measure (Work), dependencies
-- (Dependencies) and its end (Liveness), the requests to agents (Requests, Runs), outputs that
-- were stored before (Recovery), what the API keeps of ConfigMaps (Keeping), the completion of a
-- stage (Storing, Completion), whole runs (Deliveries, Handover, Distinct, Delivery with its
-- specification, Rounds, Beginning, WholeRuns, EndToEnd), how often agents are asked (Budget),
-- what an answer of the A2A runner leads to (Dispatch), when a pass asks for another (Asking,
-- Requeue), the choice of stages (Selection), prompt contexts (Contexts), outputs (Outputs), what
-- stays (Durable), what the completed stages depend on (Earned, Waiting), what waits (Stuck) and
-- names that clash (Collision), all in Controller/; the end of a stream (Stream, Answers), its
-- bytes (Frames, Framing), the result of a stream (Texts, Tasks, Results) and base URLs
-- (Trimming) in Runner/. Scenarios/ has a concrete world, runs in it, and instances of the
-- theorems.
--
-- Strings are lists of bytes. An `int32` is an integer whose increment wraps. The only fuel is
-- that of the loops that trim a text, its length, and that of decimal numbers; both suffice,
-- since each round takes a byte or a digit. The passes of the reconciler are counted. The measure
-- `work` of a pipeline counts 3 at most for its begin and its end, 2 for each stage, and 2 more
-- for each retry that the policy of the stage allows.
--
-- Not modelled: logging, resource versions (a conflict is a refused write), the removal of an
-- object from the API once its last finalizer is gone, the deadlines inside HTTP calls, the
-- tests, and everything in the repository outside agentpipeline-operator/, which is configuration
-- of other programs.
pub mod Prelude
pub mod Api
pub mod Runner
pub mod Controller
pub mod Operator
pub mod Copies
pub mod Scenarios
