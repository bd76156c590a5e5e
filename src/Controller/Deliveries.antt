-- ===== src/Controller/Deliveries.antt =====
-- Stages that are done, with their outputs, in front of stages that have not begun.
use cluster.Prelude.{
  Str, true, List, [], ◌∷◌, ◌++◌, map, length, set, append_assoc, append-nil, ◌≡◌, refl, ap, ◌∙◌,
  arith,
}
use cluster.Api.{StagePhase, StageSpec, StageStatus, AgentPipeline, is_open}
use cluster.Controller.Stages.{
  no_stage, stage, find_loop, completed_stages, all_in, are_dependencies_met, init_stage,
  init_stages,
}
use cluster.Controller.Current.{
  shift, shift-stage, shift-no_stage, find_loop_open, find_loop_closed,
}
use cluster.Controller.Dependencies.{Ordered, completed_stages-init_stages, completed_stages_done}

-- A stage with its status and the output of its agent.
pub record Delivery : Type 0 where
  pub spec : StageSpec
  pub status : StageStatus
  pub output : Str

abbrev pub specs_of : List Delivery → List StageSpec
specs_of = map (λ (d : Delivery). d.spec)

abbrev pub statuses_of : List Delivery → List StageStatus
statuses_of = map (λ (d : Delivery). d.status)

abbrev pub names_of : List Delivery → List Str
names_of = map (λ (d : Delivery). d.spec.name)

-- Each status is that of a completed stage of the spec's name.
abbrev pub Named : List Delivery → Type 0
Named [] = Unit
Named (d ∷ ds) = (d.status.phase ≡ StagePhase.completed) × (d.status.name ≡ d.spec.name) × Named ds

pub find_loop-Named :
    (ds : List Delivery) (s : StageSpec) (rest : List StageSpec)
    → Named ds
    → find_loop (specs_of ds ++ (s ∷ rest)) 0 (statuses_of ds ++ init_stages (s ∷ rest))
      ≡ stage (length ds) s (init_stage s)
unfolding init_stages
find_loop-Named [] s rest named = find_loop_open s rest (init_stage s) (init_stages rest) refl
find_loop-Named (d ∷ ds) s rest named =
    find_loop_closed d.spec (specs_of ds ++ (s ∷ rest)) d.status
      (statuses_of ds ++ init_stages (s ∷ rest)) (ap is_open named.0)
    ∙ ap shift (find_loop-Named ds s rest named.2)
    ∙ shift-stage (length ds) s (init_stage s)

pub find_loop-all_Named :
    (ds : List Delivery)
    → Named ds
    → find_loop (specs_of ds ++ []) 0 (statuses_of ds ++ init_stages []) ≡ no_stage
unfolding init_stages find_loop
find_loop-all_Named [] named = refl
find_loop-all_Named (d ∷ ds) named =
    find_loop_closed d.spec (specs_of ds ++ []) d.status (statuses_of ds ++ init_stages [])
      (ap is_open named.0)
    ∙ ap shift (find_loop-all_Named ds named.2)
    ∙ shift-no_stage

completed_stages-Named :
    (ds : List Delivery) (rest : List StageSpec)
    → Named ds
    → completed_stages (statuses_of ds ++ init_stages rest) ≡ names_of ds
completed_stages-Named [] rest named = completed_stages-init_stages rest
completed_stages-Named (d ∷ ds) rest named =
    completed_stages_done d.status (statuses_of ds ++ init_stages rest) named.0
    ∙ cc (completed_stages-Named ds rest named.2, named.1)

Ordered-names_of :
    (earlier : List Str) (ds : List Delivery) (s : StageSpec) (rest : List StageSpec)
    → Ordered earlier (specs_of ds ++ (s ∷ rest))
    → all_in (earlier ++ names_of ds) s.depends_on ≡ true
Ordered-names_of earlier [] s rest o = rw append-nil o.0
Ordered-names_of earlier (d ∷ ds) s rest o =
    rw (← append_assoc earlier (d.spec.name ∷ []) (names_of ds))
      (Ordered-names_of (earlier ++ (d.spec.name ∷ [])) ds s rest o.1)

pub are_dependencies_met-Named :
    (p : AgentPipeline) (ds : List Delivery) (s : StageSpec) (rest : List StageSpec)
    → Named ds
    → Ordered [] (specs_of ds ++ (s ∷ rest))
    → p.status.stages ≡ statuses_of ds ++ init_stages (s ∷ rest)
    → are_dependencies_met p s ≡ true
unfolding are_dependencies_met
are_dependencies_met-Named p ds s rest named o e =
    let all : all_in (completed_stages p.status.stages) s.depends_on ≡ true =
      ap (λ cs. all_in (completed_stages cs) s.depends_on) e
      ∙ ap (λ xs. all_in xs s.depends_on) (completed_stages-Named ds (s ∷ rest) named)
      ∙ Ordered-names_of [] ds s rest o in
    ground (arith, all)

pub set-length :
    (ds : List Delivery) (c c' : StageStatus) (cs : List StageStatus)
    → set (statuses_of ds ++ (c ∷ cs)) (length ds) c' ≡ statuses_of ds ++ (c' ∷ cs)
set-length [] c c' cs = refl
set-length (d ∷ ds) c c' cs = ap (λ r. d.status ∷ r) (set-length ds c c' cs)
