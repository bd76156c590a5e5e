-- ===== src/Controller/Distinct.antt =====
-- Stages of different names keep their outputs in different ConfigMaps.
use cluster.Prelude.{
  str_eq_sym, Str, str_eq, str_eq_iff, true, false, List, [], ◌∷◌, ◌++◌, map, ◌≡◌, ◌∙◌, inl, inr,
  arith, Bool-cases,
}
use cluster.Api.{StageSpec, ObjectMeta}
use cluster.Runner.Types.{err}
use cluster.Controller.Env.{Env, ObjectKey, Trace}
use cluster.Controller.Stages.{contains, output_config_map_name}
use cluster.Controller.Outputs.{output_config_map_name-injective}
use cluster.Controller.Keeping.{same_key}
use cluster.Controller.Deliveries.{Delivery, specs_of}
use cluster.Controller.Handover.{output_key, AllDelivered}

abbrev pub stage_names : List StageSpec → List Str
stage_names = map (λ (s : StageSpec). s.name)

-- No two stages have the same name.
abbrev pub Distinct : List StageSpec → Type 0
Distinct [] = Unit
Distinct (s ∷ ss) = (contains (stage_names ss) s.name ≡ false) × Distinct ss

-- At `t` the outputs of the stages cannot be read.
abbrev pub AllUnread : Env → ObjectMeta → Trace → List StageSpec → Type 0
AllUnread env m t [] = Unit
AllUnread env m t (s ∷ ss) =
    ((e : Str) × (env.get_config_map t (output_key m s.name) ≡ err e)) × AllUnread env m t ss

same_key-output_key :
    (m : ObjectMeta) (a b : Str)
    → str_eq a b ≡ false
    → same_key (output_key m a) (output_key m b) ≡ false
same_key-output_key m a b apart = elim (Bool-cases (same_key (output_key m a) (output_key m b))) [
  | inr h ↦ h
  | inl h ↦
      let names : str_eq (output_config_map_name m.name a) (output_config_map_name m.name b)
          ≡ true =
        ground arith in
      let same : a ≡ b = output_config_map_name-injective m.name a b ((str_eq_iff _ _).0 names) in
      absurd (ground (arith, (str_eq_iff a b).1 same))
]

contains-append :
    (ds : List Delivery) (d : Delivery) (s : StageSpec) (rest : List StageSpec)
    → contains (stage_names (specs_of ds ++ (s ∷ rest))) d.spec.name ≡ false
    → str_eq s.name d.spec.name ≡ false
unfolding contains
contains-append [] d s rest h = ground arith
contains-append (x ∷ ds) d s rest h = contains-append ds d s rest (ground arith)

pub AllUnread-later :
    (env : Env) (m : ObjectMeta) (t t' : Trace) (rest : List StageSpec)
    → ((k : ObjectKey) → env.get_config_map t' k ≡ env.get_config_map t k)
    → AllUnread env m t rest
    → AllUnread env m t' rest
AllUnread-later env m t t' [] same all = tt
AllUnread-later env m t t' (r ∷ rest) same ((e, h), all) =
    ((e, same (output_key m r.name) ∙ h), AllUnread-later env m t t' rest same all)

module _ (env : Env) (m : ObjectMeta) (t t' : Trace) (s : StageSpec)
    (others : (k : ObjectKey)
      → same_key (output_key m s.name) k ≡ false
      → env.get_config_map t' k ≡ env.get_config_map t k) where
  pub AllDelivered-others :
      (ds : List Delivery) (rest : List StageSpec)
      → Distinct (specs_of ds ++ (s ∷ rest))
      → AllDelivered env m t ds
      → AllDelivered env m t' ds
  AllDelivered-others [] rest distinct all = tt
  AllDelivered-others (d ∷ ds) rest distinct (at, all) = (
    record {
      phase = at.phase;
      named = at.named;
      output_ref = at.output_ref;
      base = at.base;
      kept =
          others (output_key m d.spec.name)
            (same_key-output_key m s.name d.spec.name (contains-append ds d s rest distinct.0))
          ∙ at.kept;
    },
    AllDelivered-others ds rest distinct.1 all,
  )

  pub AllUnread-others :
      (rest : List StageSpec)
      → contains (stage_names rest) s.name ≡ false
      → AllUnread env m t rest
      → AllUnread env m t' rest
  unfolding contains
  AllUnread-others [] apart all = tt
  AllUnread-others (r ∷ rest) apart ((e, h), all) = (
    (
      e,
      others (output_key m r.name)
            (same_key-output_key m s.name r.name (str_eq_sym s.name r.name ∙ ground arith))
          ∙ h,
    ),
    AllUnread-others rest (ground arith) all,
  )

pub Distinct-append :
    (ds : List Delivery) (s : StageSpec) (rest : List StageSpec)
    → Distinct (specs_of ds ++ (s ∷ rest))
    → contains (stage_names rest) s.name ≡ false
Distinct-append [] s rest distinct = distinct.0
Distinct-append (d ∷ ds) s rest distinct = Distinct-append ds s rest distinct.1
