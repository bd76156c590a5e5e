-- ===== src/Operator/Start.antt =====
-- When the operator runs its manager, and when it exits.
use cluster.Prelude.{
  Str, lit, ℕ, Bool, true, false, not, ◌&&◌, Option, none, some, List, [], ◌∷◌, ◌==◌, ◌≡◌, sym, ap,
  subst, ◌∙◌, arith,
}
use cluster.Operator.Scheme.{Scheme, scheme_builder}
use cluster.Runner.Types.{ok}
use cluster.Operator.Options.{parse_flags}
use cluster.Operator.Startup.{
  ManagerOptions, manager_options, wiring, registration, Host, Act, run, exit, or_exit, serve, main,
  must, operator,
}

-- The manager is run.
abbrev pub runs : List Act → Bool
runs [] = false
runs (run ∷ acts) = true
runs (_ ∷ acts) = runs acts

-- The process exits with that code.
abbrev pub exits : ℕ → List Act → Bool
exits code [] = false
exits code (exit n ∷ acts) = n == code
exits code (_ ∷ acts) = exits code acts

abbrev pub is_none : Option Str → Bool
is_none none = true
is_none (some _) = false

-- Everything that is set up before the manager runs succeeds.
abbrev pub is_set_up : Host → ManagerOptions → Bool
is_set_up host options =
    is_none host.get_config
    && (is_none (host.new_manager options)
        && (is_none (host.complete registration (wiring host))
            && (is_none (host.add_healthz_check (lit "healthz"))
                && is_none (host.add_readyz_check (lit "readyz")))))

main_lem :
    (host : Host) (scheme : Scheme)
    → let options = manager_options scheme (parse_flags host.command_line) in
      (runs (main host scheme) ≡ is_set_up host options)
      × (exits 1 (main host scheme) ≡ not (is_set_up host options && is_none host.start))
unfolding main serve or_exit
main_lem host scheme = ground arith

-- Where the types of Kubernetes and those of the API group can be registered, the operator runs its
-- manager exactly if every step of its setup succeeds, with a scheme that has these types, and it
-- exits with the code 1 exactly if a step of the setup or the manager itself fails.
pub operator_lem :
    (host : Host) (s scheme : Scheme)
    → host.client_go [] ≡ ok s
    → host.add_to_scheme scheme_builder s ≡ ok scheme
    → let options = manager_options scheme (parse_flags host.command_line) in
      (runs (operator host) ≡ is_set_up host options)
      × (exits 1 (operator host) ≡ not (is_set_up host options && is_none host.start))
unfolding operator must
operator_lem host s scheme e e' =
    subst
      (λ (acts : List Act).
        let options = manager_options scheme (parse_flags host.command_line) in
        (runs acts ≡ is_set_up host options)
        × (exits 1 acts ≡ not (is_set_up host options && is_none host.start)))
      (sym (
        ap (λ r. must r (λ s. must (host.add_to_scheme scheme_builder s) (main host))) e
        ∙ ap (λ r. must r (main host)) e'))
      (main_lem host scheme)
