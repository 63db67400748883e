-- ===== src/Health/Tests.antt =====
-- Runs of the registry, the diagnosis and the probe loop.
use home_sentinel.Base.{
  ◌≡◌, refl, ℕ, String, str_eq, eq_iff, Bool, true, false, [], ◌∷◌, ◌<◌, lookup, arith, Any, inl,
  inr, subst, if◌then◌else◌,
}
use home_sentinel.Health.{
  degraded, failed, Component, Registry, DependencyGraph, overall, is_failing, diagnose_one,
}
use home_sentinel.Health.Overall.{IsVerdict, components, overall-IsVerdict}
use home_sentinel.Health.Diagnosis.{Failing, IsNamed, IsRanked, diagnose_finds}
use home_sentinel.Health.Watchdog.{Check}

abbrev broker : Component
broker = record { name = "mqtt"; status = failed; since = 1; reason_code = "DOWN"; cause = "dial" }

abbrev house : Component
house = record {
  name = "home";
  status = degraded;
  since = 2;
  reason_code = "MQTT";
  cause = "discovery";
}

abbrev registry : Registry
registry = ("mqtt", broker) ∷ ("home", house) ∷ []

overall-IsVerdict_example : IsVerdict (components registry) (overall registry)
overall-IsVerdict_example = overall-IsVerdict registry

-- The house depends on the broker.
abbrev graph : DependencyGraph
graph n = if str_eq n "home" then "mqtt" ∷ [] else []

abbrev rank : String → ℕ
rank n = if str_eq n "home" then 1 else 0

registry-IsNamed : IsNamed registry
unfolding lookup
registry-IsNamed n c h = ground (arith, h, eq_iff "mqtt" n, eq_iff "home" n)

graph-IsRanked : IsRanked registry graph rank
graph-IsRanked n d listed = go (str_eq n "home") listed
  where
    go :
        (b : Bool)
        → Any (λ x. x ≡ d) (if b then "mqtt" ∷ [] else [])
        → rank d < (if b then 1 else 0)
    go true (inl e) = subst (λ x. rank x < 1) e (omega arith)
    go true (inr e) = absurd e
    go false e = absurd e

house-Failing : Failing registry house
unfolding lookup is_failing
house-Failing = record { stored = refl; fails = refl }

diagnose_finds_example :
    (root : Component) × (Failing registry root
      × ((diagnose_one registry graph root).root_cause ≡ true))
diagnose_finds_example =
    diagnose_finds registry graph rank house registry-IsNamed graph-IsRanked house-Failing

abbrev check : Check
check = record { name = "mqtt"; base = 0; max_backoff = 0; timeout = 0; reason_code = "" }

abbrev slow : Check
slow = record {
  name = "disk";
  base = 600_000_000_000;
  max_backoff = 0;
  timeout = 0;
  reason_code = "";
}

abbrev quick : Check
quick = record { name = "disk"; base = 3; max_backoff = 10; timeout = 1; reason_code = "" }
