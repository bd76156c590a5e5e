-- ===== src/Controller/Selection.antt =====
-- The current stage, the dependencies and the retry policy against independent descriptions.
use cluster.Prelude.{
  Str, str_eq, str_eq_iff, ℕ, suc, ◌+◌, true, false, none, some, List, [], ◌∷◌, get_elem?, length,
  ◌++◌, Option-cases, ◌≡◌, refl, ap, ◌∙◌, ◌↔◌, inl, inr, arith, Bool-cases,
}
use cluster.Api.{StagePhase, StageSpec, StageStatus, AgentPipeline, is_open, is_completed}
use cluster.Controller.Stages.{
  FoundStage, no_stage, stage, out_of_range, find_loop, select, find_current_stage,
  completed_stages, contains, all_in, are_dependencies_met,
}

-- A stage of that name is completed.
pub data CompletedIn (name : Str) : List StageStatus → Type 0 where
  here :
      {c : StageStatus} {cs : List StageStatus}
      → c.name ≡ name
      → c.phase ≡ StagePhase.completed
      → CompletedIn name (c ∷ cs)
  there :
      {c : StageStatus} {cs : List StageStatus} → CompletedIn name cs → CompletedIn name (c ∷ cs)

is_completed_iff :
    (phase : StagePhase) → (is_completed phase ≡ true) ↔ (phase ≡ StagePhase.completed)
is_completed_iff phase = (λ h. ground arith, λ h. ground arith)

contains→CompletedIn :
    (cs : List StageStatus) (name : Str)
    → contains (completed_stages cs) name ≡ true
    → CompletedIn name cs
unfolding contains completed_stages
contains→CompletedIn [] name h = cc
contains→CompletedIn (c ∷ cs) name h = elim (Bool-cases (is_completed c.phase)) [
  | inl done ↦ elim (Bool-cases (str_eq c.name name)) [
    | inl same ↦ here ((str_eq_iff c.name name).0 same) ((is_completed_iff c.phase).0 done)
    | inr other ↦ there (contains→CompletedIn cs name (ground arith))
  ]
  | inr undone ↦ there (contains→CompletedIn cs name (ground arith))
]

CompletedIn→contains :
    (name : Str) {cs : List StageStatus}
    → CompletedIn name cs
    → contains (completed_stages cs) name ≡ true
unfolding contains completed_stages
CompletedIn→contains name (here {c} {cs} e f) =
    ground (arith, (is_completed_iff c.phase).1 f, (str_eq_iff c.name name).1 e)
CompletedIn→contains name (there {c} {cs} h) = ground (arith, CompletedIn→contains name h)

abbrev pub AllCompleted : List Str → List StageStatus → Type 0
AllCompleted [] cs = Unit
AllCompleted (d ∷ ds) cs = CompletedIn d cs × AllCompleted ds cs

all_in_iff :
    (cs : List StageStatus) (deps : List Str)
    → (all_in (completed_stages cs) deps ≡ true) ↔ AllCompleted deps cs
unfolding all_in
all_in_iff cs [] = (λ _. tt, λ _. refl)
all_in_iff cs (d ∷ ds) = (
  λ h. (contains→CompletedIn cs d (ground arith), (all_in_iff cs ds).0 (ground arith)),
  λ h. ground (arith, CompletedIn→contains d h.0, (all_in_iff cs ds).1 h.1),
)

-- The dependencies of a stage are met exactly when each name that it depends on is the name of a
-- completed stage: a stage that was skipped or that is not there does not count, and an empty list is
-- always met, whatever the stage before is.
pub are_dependencies_met_iff :
    (p : AgentPipeline) (s : StageSpec)
    → (are_dependencies_met p s ≡ true) ↔ AllCompleted s.depends_on p.status.stages
unfolding are_dependencies_met
are_dependencies_met_iff p s = met s.depends_on refl
  where
    met :
        (deps : List Str)
        → s.depends_on ≡ deps
        → (are_dependencies_met p s ≡ true) ↔ AllCompleted s.depends_on p.status.stages
    met [] e = rw (e, are_dependencies_met) (λ _. tt, λ _. refl)
    met (d ∷ ds) e = rw (e, are_dependencies_met) (all_in_iff p.status.stages (d ∷ ds))

-- No stage is open.
abbrev pub NoneOpen : List StageStatus → Type 0
NoneOpen [] = Unit
NoneOpen (c ∷ cs) = (is_open c.phase ≡ false) × NoneOpen cs

-- The first stage status that is open, with the spec at its index, `k` after the first.
pub data Finds (specs : List StageSpec) (k : ℕ) (cs : List StageStatus) : FoundStage → Type 0 where
  none_open : NoneOpen cs → Finds specs k cs no_stage
  first_open :
      (front back : List StageStatus) (s : StageSpec) (c : StageStatus) {found : FoundStage}
      → cs ≡ front ++ (c ∷ back)
      → NoneOpen front
      → is_open c.phase ≡ true
      → get_elem? specs (k + length front) ≡ some s
      → found ≡ stage (k + length front) s c
      → Finds specs k cs found
  no_spec :
      (front back : List StageStatus) (c : StageStatus)
      → cs ≡ front ++ (c ∷ back)
      → NoneOpen front
      → is_open c.phase ≡ true
      → get_elem? specs (k + length front) ≡ none
      → Finds specs k cs out_of_range

find_loop-Finds :
    (specs : List StageSpec) (k : ℕ) (cs : List StageStatus)
    → Finds specs k cs (find_loop specs k cs)
unfolding find_loop select
find_loop-Finds specs k [] = none_open tt
find_loop-Finds specs k (c ∷ cs) = elim (Bool-cases (is_open c.phase)) [
  | inl open_c ↦ elim (Option-cases (get_elem? specs k)) [
    | inl h ↦
        rw (open_c, h, find_loop, select)
          (no_spec [] cs c refl tt open_c (ap (get_elem? specs) (omega arith) ∙ h))
    | inr (s, h) ↦
        rw (open_c, h, find_loop, select)
          (first_open [] cs s c refl tt open_c (ap (get_elem? specs) (omega arith) ∙ h)
            (ap (λ j. stage j s c) (omega arith)))
  ]
  | inr closed ↦ rw (closed, find_loop) (past closed (find_loop-Finds specs (suc k) cs))
]
  where
    past :
        {found : FoundStage}
        → is_open c.phase ≡ false
        → Finds specs (suc k) cs found
        → Finds specs k (c ∷ cs) found
    past closed (none_open h) = none_open (closed, h)
    past closed (first_open front back s d e h o g f) =
        first_open (c ∷ front) back s d (ap (λ r. c ∷ r) e) (closed, h) o
          (ap (get_elem? specs) (omega arith) ∙ g) (f ∙ ap (λ j. stage j s d) (omega arith))
    past closed (no_spec front back d e h o g) =
        no_spec (c ∷ front) back d (ap (λ r. c ∷ r) e) (closed, h) o
          (ap (get_elem? specs) (omega arith) ∙ g)

-- The current stage is the first whose status is neither Completed nor Skipped, with the spec at its
-- index; there is none if every status is Completed or Skipped, and the index is out of range if
-- the spec has fewer stages.
pub find_current_stage-Finds :
    (p : AgentPipeline) → Finds p.spec.stages 0 p.status.stages (find_current_stage p)
unfolding find_current_stage
find_current_stage-Finds p = find_loop-Finds p.spec.stages 0 p.status.stages
