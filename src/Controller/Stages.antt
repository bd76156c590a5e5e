-- ===== src/Controller/Stages.antt =====
-- The pure part of agentpipeline-operator/internal/controller/stage_handler.go: choosing the
-- current stage, its dependencies, its retry policy, and the names and sizes of outputs.
use cluster.Prelude.{
  Str, lit, str_eq, ℕ, suc, ◌+◌, ◌-◌, pos, Bool, true, false, ◌&&◌, ◌||◌, Option, none, some, List,
  [], ◌∷◌, ◌++◌, length, get_elem?, set, drop, leb, if◌then◌else◌,
}
use cluster.Api.{
  StagePhase, StageSpec, StageStatus, RetryPolicy, AgentPipeline, is_open, is_completed,
}

abbrev pub max_status_output_len : ℕ
max_status_output_len = 1024

-- What `FindCurrentStage` returns: no stage, a stage with its index, or the panic of an index that
-- `Spec.Stages` does not have.
pub data FoundStage : Type 0 where
  no_stage : FoundStage
  stage : ℕ → StageSpec → StageStatus → FoundStage
  out_of_range : FoundStage

unfoldable pub select : ℕ → Option StageSpec → StageStatus → FoundStage
select i none c = out_of_range
select i (some s) c = stage i s c

-- The loop of `FindCurrentStage`, at index `i`.
unfoldable pub find_loop : List StageSpec → ℕ → List StageStatus → FoundStage
find_loop specs i [] = no_stage
find_loop specs i (c ∷ cs) =
    let rest = find_loop specs (suc i) cs in
    if is_open c.phase then select i (get_elem? specs i) c else rest

unfoldable pub find_current_stage : AgentPipeline → FoundStage
find_current_stage p = find_loop p.spec.stages 0 p.status.stages

-- The keys of the map `completedStages`.
unfoldable pub completed_stages : List StageStatus → List Str
completed_stages [] = []
completed_stages (c ∷ cs) =
    let rest = completed_stages cs in if is_completed c.phase then c.name ∷ rest else rest

unfoldable pub contains : List Str → Str → Bool
contains [] name = false
contains (x ∷ xs) name = str_eq x name || contains xs name

unfoldable pub all_in : List Str → List Str → Bool
all_in done [] = true
all_in done (dep ∷ deps) = contains done dep && all_in done deps

unfoldable pub are_dependencies_met : AgentPipeline → StageSpec → Bool
are_dependencies_met p s = elim s.depends_on [
  | [] ↦ true
  | dep ∷ deps ↦ all_in (completed_stages p.status.stages) (dep ∷ deps)
]

-- The status of a stage that has not begun.
abbrev pub init_stage : StageSpec → StageStatus
init_stage s = record {
  name = s.name;
  phase = StagePhase.pending;
  started_at = none;
  completed_at = none;
  retry_count = pos 0;
  output = [];
  output_ref = [];
  error = [];
  task_id = [];
}

unfoldable pub init_stages : List StageSpec → List StageStatus
init_stages [] = []
init_stages (s ∷ ss) = init_stage s ∷ init_stages ss

unfoldable pub init_stage_statuses : AgentPipeline → AgentPipeline
unfolding init_stages
init_stage_statuses p = record p { status = record p.status { stages = init_stages p.spec.stages } }

unfoldable pub effective_policy : Option RetryPolicy → StageSpec → RetryPolicy
effective_policy fallback s = elim s.retry_policy [
  | some policy ↦ policy
  | none ↦ elim fallback [
    | some policy ↦ policy
    | none ↦ record { max_retries = pos 0; backoff = none }
  ]
]

abbrev pub get_effective_retry_policy : AgentPipeline → StageSpec → RetryPolicy
get_effective_retry_policy p s = effective_policy p.spec.retry_policy s

unfoldable pub output_config_map_name : Str → Str → Str
output_config_map_name pipeline_name stage_name = pipeline_name ++ (lit "-stage-" ++ stage_name)

unfoldable pub truncate_output : Str → Str
truncate_output output =
    if leb (length output) max_status_output_len
    then output
    else lit "..." ++ drop (length output - max_status_output_len + 3) output

-- `pipeline.Status.Stages[i]` given anew, as a write through the pointer `stageStatus` does.
abbrev pub set_stage : AgentPipeline → ℕ → StageStatus → AgentPipeline
set_stage p i c = record p { status = record p.status { stages = set p.status.stages i c } }
