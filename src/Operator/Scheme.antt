-- ===== src/Operator/Scheme.antt =====
-- The group of agentpipeline-operator/api/v1alpha1/groupversion_info.go and the types that
-- agentpipeline_types.go registers in it.
use cluster.Prelude.{Str, lit, List, [], ◌∷◌}

-- schema.GroupVersion
pub record GroupVersion : Type 0 where
  pub group : Str
  pub version : Str

abbrev pub group_version : GroupVersion
group_version = record { group = lit "aiops.cluster69.io"; version = lit "v1alpha1" }

-- What a scheme knows of a type.
pub record GroupKind : Type 0 where
  pub of_group : GroupVersion
  pub kind : Str

abbrev pub Scheme : Type 0
Scheme = List GroupKind

-- scheme.Builder: the group and the types registered so far.
pub record SchemeBuilder : Type 0 where
  pub builds : GroupVersion
  pub kinds : List Str

abbrev pub registered_kinds : List Str
registered_kinds = lit "AgentPipeline" ∷ lit "AgentPipelineList" ∷ []

-- The `SchemeBuilder` of the package behind its `init`.
abbrev pub scheme_builder : SchemeBuilder
scheme_builder = record { builds = group_version; kinds = registered_kinds }
