-- ===== src/Runner.antt =====
-- agentpipeline-operator/internal/runner: the agents' runner and its two implementations.
pub mod Types
pub mod Strings
pub mod Scanner
pub mod Sse
pub mod A2a
pub mod Mock
pub mod Stream
pub mod Answers
pub mod Frames
pub mod Framing
pub mod Trimming
pub mod Texts
pub mod Tasks
pub mod Results
