-- ===== src/Copies.antt =====
-- agentpipeline-operator/api/v1alpha1/zz_generated.deepcopy.go: deep copies of the resource.
pub mod Memory
pub mod Views
pub mod Copy
pub mod DeepCopy
pub mod Denotation
pub mod Regions
pub mod Combinators
pub mod Pointers
pub mod Maps
pub mod Structs
pub mod Pipelines
pub mod Independence
