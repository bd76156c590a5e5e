-- ===== src/Api.antt =====
-- agentpipeline-operator/api/v1alpha1/agentpipeline_types.go: the AgentPipeline resource.
-- A Go string type with named constants is a data type: its constants, and `other` for any other
-- text (`unset` for the empty text where the code treats it apart). A pointer is an Option, a map an
-- association list, a time a number and a duration a number of nanoseconds. Of the Kubernetes
-- metadata (`metav1.ObjectMeta`, `metav1.Condition`) there are the fields that the code uses.
use cluster.Prelude.{Str, ℤ, ℕ, Option, List, Bool, true, false}

pub data PipelinePhase : Type 0 where
  unset pending running completed failed : PipelinePhase
  other : Str → PipelinePhase

pub data StagePhase : Type 0 where
  pending running completed failed skipped : StagePhase
  other : Str → StagePhase

pub data TriggerType : Type 0 where
  unset manual alertmanager event : TriggerType
  other : Str → TriggerType

abbrev pub Time : Type 0
Time = ℕ

abbrev pub Duration : Type 0
Duration = ℤ

abbrev pub StrMap : Type 0
StrMap = List (Str × Str)

pub record AlertmanagerConfig : Type 0 where
  pub webhook_port : ℤ  -- int32
  pub match_labels : StrMap

pub record TriggerSpec : Type 0 where
  pub type_of : TriggerType
  pub alertmanager : Option AlertmanagerConfig

pub record AgentReference : Type 0 where
  pub name : Str
  pub namespace : Str

pub record RetryPolicy : Type 0 where
  pub max_retries : ℤ  -- int32
  pub backoff : Option Duration

pub record StageConfig : Type 0 where
  pub auto_merge : Str
  pub target_repo : Str

pub record StageSpec : Type 0 where
  pub name : Str
  pub agent_ref : AgentReference
  pub timeout : Option Duration
  pub depends_on : List Str
  pub prompt : Str
  pub inputs : StrMap
  pub config : Option StageConfig
  pub retry_policy : Option RetryPolicy

pub record AgentPipelineSpec : Type 0 where
  pub trigger : TriggerSpec
  pub stages : List StageSpec
  pub retry_policy : Option RetryPolicy

pub record StageStatus : Type 0 where
  pub name : Str
  pub phase : StagePhase
  pub started_at : Option Time
  pub completed_at : Option Time
  pub retry_count : ℤ  -- int32
  pub output : Str
  pub output_ref : Str
  pub error : Str
  pub task_id : Str

-- metav1.ConditionStatus
pub data ConditionStatus : Type 0 where
  condition_true condition_false condition_unknown : ConditionStatus

-- metav1.Condition
pub record Condition : Type 0 where
  pub type_of : Str
  pub status : ConditionStatus
  pub reason : Str
  pub message : Str
  pub observed_generation : ℕ

pub record AgentPipelineStatus : Type 0 where
  pub phase : PipelinePhase
  pub current_stage : Str
  pub started_at : Option Time
  pub completed_at : Option Time
  pub stages : List StageStatus
  pub conditions : List Condition

-- metav1.ObjectMeta
pub record ObjectMeta : Type 0 where
  pub name : Str
  pub namespace : Str
  pub generation : ℕ
  pub finalizers : List Str
  pub deletion_timestamp : Option Time
  pub labels : StrMap
  pub owners : List Str

pub record AgentPipeline : Type 0 where
  pub meta : ObjectMeta
  pub spec : AgentPipelineSpec
  pub status : AgentPipelineStatus

-- `phase != StageCompleted && phase != StageSkipped`
abbrev pub is_open : StagePhase → Bool
is_open StagePhase.completed = false
is_open StagePhase.skipped = false
is_open _ = true

-- `phase == StageCompleted`
abbrev pub is_completed : StagePhase → Bool
is_completed StagePhase.completed = true
is_completed _ = false
