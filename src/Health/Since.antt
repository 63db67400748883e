-- ===== src/Health/Since.antt =====
-- How long a component has been as it is.
use home_sentinel.Base.{
  ℕ, ◌≡◌, refl, String, str_eq, eq_iff, eq_refl, true, false, some, lookup, lookup-insert,
  Bool-cases, inl, inr, arith,
}
use home_sentinel.Health.{Status, same_status, Component, Registry, since_when, set}

same_status_refl : (s : Status) → same_status s s ≡ true
same_status_refl Status.unknown = refl
same_status_refl Status.starting = refl
same_status_refl Status.healthy = refl
same_status_refl Status.degraded = refl
same_status_refl Status.failed = refl

abbrev written : ℕ → String → Status → String → String → Registry → Component
written now name status reason cause r = record {
  name = name;
  status = status;
  since = since_when (lookup name r) now status reason cause;
  reason_code = reason;
  cause = cause;
}

lookup-set :
    (now : ℕ) (name : String) (status : Status) (reason cause : String) (r : Registry)
    → str_eq name "" ≡ false
    → lookup name (set now name status reason cause r)
      ≡ some (written now name status reason cause r)
unfolding set
lookup-set now name status reason cause r named = ground (
  arith,
  lookup-insert name name (written now name status reason cause r) r,
  named,
  eq_iff name name,
)

-- A report that repeats the last one leaves a component as it is, with the time of the first.
pub set_again :
    (first later : ℕ) (name : String) (status : Status) (reason cause : String) (r : Registry)
    → lookup name (set later name status reason cause (set first name status reason cause r))
      ≡ lookup name (set first name status reason cause r)
unfolding set lookup
set_again first later name status reason cause r = elim (Bool-cases (str_eq name "")) [
  | inl empty ↦ rw (set, empty) refl
  | inr named ↦
      rw
        (
          lookup-set later name status reason cause (set first name status reason cause r) named,
          lookup-set first name status reason cause r named,
          same_status_refl status,
          eq_refl reason,
          eq_refl cause,
        )
        refl
]
