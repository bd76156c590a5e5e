-- ===== src/Operator.antt =====
-- agentpipeline-operator/cmd/main.go: the configuration and the start of the operator.
pub mod Scheme
pub mod Options
pub mod Startup
pub mod Servers
pub mod Start
