-- ===== src/Scenarios/Urls.antt =====
-- The base URL of a runner that is given one with slashes at its end.
use cluster.Prelude.{lit, [], ◌≡◌, refl}
use cluster.Runner.Strings.{trim_loop, trim_right_slashes}
use cluster.Runner.A2a.{new_a2a_runner}

trimmed : (new_a2a_runner (lit "http://kagent//") []).base_url ≡ lit "http://kagent"
unfolding new_a2a_runner trim_right_slashes trim_loop lit
trimmed = refl
