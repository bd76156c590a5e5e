-- ===== src/Copies/Memory.antt =====
-- The resource of agentpipeline-operator/api/v1alpha1/agentpipeline_types.go as it lies in memory: a
-- pointer, a map or a slice is nil or an address. A slice is the whole of its array.
use cluster.Prelude.{Str, ℤ, ℕ, suc, Option, none, some, List, ◌==◌, if◌then◌else◌}
use cluster.Api.{
  PipelinePhase, StagePhase, TriggerType, Time, Duration, StrMap, AgentReference, StageConfig,
  Condition, AgentPipeline,
}

abbrev pub Address : Type 0
Address = ℕ

abbrev pub Pointer : Type 0
Pointer = Option Address

-- metav1.TypeMeta
pub record TypeMeta : Type 0 where
  pub kind : Str
  pub api_version : Str

-- metav1.ListMeta
pub record ListMeta : Type 0 where
  pub resource_version : Str
  pub continue_token : Str
  pub remaining_item_count : Option ℤ

pub record AgentPipelineList : Type 0 where
  pub type_meta : TypeMeta
  pub list_meta : ListMeta
  pub items : List (TypeMeta × AgentPipeline)

pub record StoredAlertmanager : Type 0 where
  pub webhook_port : ℤ
  pub match_labels : Pointer

pub record StoredTrigger : Type 0 where
  pub type_of : TriggerType
  pub alertmanager : Pointer

pub record StoredRetryPolicy : Type 0 where
  pub max_retries : ℤ
  pub backoff : Pointer

pub record StoredStageSpec : Type 0 where
  pub name : Str
  pub agent_ref : AgentReference
  pub timeout : Pointer
  pub depends_on : Pointer
  pub prompt : Str
  pub inputs : Pointer
  pub config : Pointer
  pub retry_policy : Pointer

pub record StoredSpec : Type 0 where
  pub trigger : StoredTrigger
  pub stages : Pointer
  pub retry_policy : Pointer

pub record StoredStageStatus : Type 0 where
  pub name : Str
  pub phase : StagePhase
  pub started_at : Pointer
  pub completed_at : Pointer
  pub retry_count : ℤ
  pub output : Str
  pub output_ref : Str
  pub error : Str
  pub task_id : Str

pub record StoredStatus : Type 0 where
  pub phase : PipelinePhase
  pub current_stage : Str
  pub started_at : Pointer
  pub completed_at : Pointer
  pub stages : Pointer
  pub conditions : Pointer

-- metav1.ObjectMeta, and metav1.ListMeta
pub record StoredObjectMeta : Type 0 where
  pub name : Str
  pub namespace : Str
  pub generation : ℕ
  pub finalizers : Pointer
  pub deletion_timestamp : Pointer
  pub labels : Pointer
  pub owners : Pointer

pub record StoredListMeta : Type 0 where
  pub resource_version : Str
  pub continue_token : Str
  pub remaining_item_count : Pointer

pub record StoredPipeline : Type 0 where
  pub type_meta : TypeMeta
  pub meta : StoredObjectMeta
  pub spec : StoredSpec
  pub status : StoredStatus

pub record StoredList : Type 0 where
  pub type_meta : TypeMeta
  pub list_meta : StoredListMeta
  pub items : Pointer

-- What an address holds.
pub data Cell : Type 0 where
  int64 : ℤ → Cell
  duration : Duration → Cell
  time : Time → Cell
  strings : List Str → Cell
  str_map : StrMap → Cell
  agent_reference : AgentReference → Cell
  stage_config : StageConfig → Cell
  retry_policy : StoredRetryPolicy → Cell
  alertmanager : StoredAlertmanager → Cell
  trigger : StoredTrigger → Cell
  stage_spec : StoredStageSpec → Cell
  stage_specs : List StoredStageSpec → Cell
  spec : StoredSpec → Cell
  stage_status : StoredStageStatus → Cell
  stage_statuses : List StoredStageStatus → Cell
  conditions : List Condition → Cell
  status : StoredStatus → Cell
  pipeline : StoredPipeline → Cell
  pipelines : List StoredPipeline → Cell
  pipeline_list : StoredList → Cell

abbrev pub Cells : Type 0
Cells = Address → Option Cell

-- The addresses from `next` on are unused.
pub record Heap : Type 0 where
  pub next : Address
  pub cell : Cells

-- `none` is a read through a pointer to nothing, or to something of another type.
abbrev pub M : Type 0 → Type 0
M A = Heap → Option (A × Heap)

abbrev pub pure : {A : Type 0} → A → M A
pure value heap = some (value, heap)

unfoldable pub load : {G : Type 0} → (Cell → Option G) → Address → M G
load view q h = elim (h.cell q) [
  | none ↦ none
  | some c ↦ elim (view c) [ none ↦ none | some g ↦ some (g, h) ]
]

-- The second, on the result and the heap of the first.
abbrev pub ◌>>=◌ : {A B : Type 0} → M A → (A → M B) → M B
◌>>=◌ first second heap = elim (first heap) [
  | some (value, later) ↦ second value later
  | none ↦ none
]

infixl 5 ◌>>=◌
abbrev pub put : Cells → Address → Cell → Cells
put u a c q = if q == a then some c else u q

unfoldable pub new : Cell → M Address
new c h = some (h.next, record { next = suc h.next; cell = put h.cell h.next c })
