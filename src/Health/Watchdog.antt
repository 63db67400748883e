-- ===== src/Health/Watchdog.antt =====
-- internal/watchdog/watchdog.go: the settings that `Start` completes, and one round of the loop of
-- `run` for each outcome of the probe. A duration is a count of nanoseconds, of which a setting that
-- is zero or negative is 0; durations are taken to be under 2 ^ 62, so that doubling does not wrap.
use home_sentinel.Base.{
  ℕ, zero, suc, ◌*◌, min, max, ◌≤◌, ◌<◌, ◌≡◌, refl, ap, String, str_eq, Bool, true, false, List, [],
  ◌∷◌, ltb, leb, ◌==◌, if◌then◌else◌, arith,
}
use home_sentinel.Health.{Status, healthy, degraded, failed}

abbrev second : ℕ
second = 1_000_000_000

pub record Check : Type 0 where
  pub name : String
  pub base : ℕ
  pub max_backoff : ℕ
  pub timeout : ℕ
  pub reason_code : String

-- The defaults of `Start`, in the source's order.
unfoldable pub complete : Check → Check
complete c =
    let base = if c.base == 0 then 30 * second else c.base in
    record c {
      base = base;
      max_backoff = if ltb c.max_backoff base then 5 * 60 * second else c.max_backoff;
      timeout = if c.timeout == 0 then 5 * second else c.timeout;
    }

-- The variables of the loop, and what it last wrote to the registry.
pub record Loop : Type 0 where
  pub delay : ℕ
  pub failures : ℕ
  pub status : Status
  pub reason : String

abbrev pub capped : ℕ → ℕ → ℕ
capped bound delay = if ltb bound delay then bound else delay

-- A round: the probe answered without an error, or with one.
unfoldable pub round : Check → Bool → Loop → Loop
round c true s = record { delay = c.base; failures = 0; status = healthy; reason = "" }
round c false s = record {
  delay = capped c.max_backoff (if s.delay == 0 then c.base else 2 * s.delay);
  failures = suc s.failures;
  status = if leb 3 (suc s.failures) then failed else degraded;
  reason = if str_eq c.reason_code "" then "PROBE_FAILED" else c.reason_code;
}

-- `run` on a list of outcomes, the latest first.
unfoldable pub run : Check → List Bool → Loop → Loop
unfolding round
run c [] s = s
run c (ok ∷ earlier) s = round c ok (run c earlier s)

-- Before the first round.
abbrev pub start : Loop
start = record { delay = 0; failures = 0; status = Status.unknown; reason = "" }

-- How many probes failed since the last that did not.
abbrev pub streak : List Bool → ℕ
streak [] = 0
streak (true ∷ earlier) = 0
streak (false ∷ earlier) = suc (streak earlier)

abbrev pub level : ℕ → Status
level n = if n == 0 then healthy else if leb n 2 then degraded else failed

failures-run : (c : Check) (ok : List Bool) → (run c ok start).failures ≡ streak ok
unfolding run
failures-run c [] = refl
failures-run c (true ∷ earlier) = refl
failures-run c (false ∷ earlier) = ap suc (failures-run c earlier)

-- After any outcomes the registry says healthy if the last probe succeeded, degraded after one or two
-- failures in a row, and failed from the third on.
pub run-level :
    (c : Check) (ok : Bool) (earlier : List Bool)
    → (run c (ok ∷ earlier) start).status ≡ level (streak (ok ∷ earlier))
unfolding run
run-level c true earlier = refl
run-level c false earlier = ground (arith, failures-run c earlier)

-- The loop never runs without a pause, nor with one longer than the greater of its two settings: after
-- a failure no longer than the maximal backoff.
pub delay-bounds :
    (c : Check) (ok : Bool) (earlier : List Bool)
    → (0 < (run (complete c) (ok ∷ earlier) start).delay)
      × ((run (complete c) (ok ∷ earlier) start).delay
          ≤ max (complete c).base (complete c).max_backoff)
      × (ok ≡ false → (run (complete c) (ok ∷ earlier) start).delay ≤ (complete c).max_backoff)
unfolding run complete
delay-bounds c true earlier = (ground arith, omega arith, λ e. absurd (ground arith))
delay-bounds c false earlier = ground arith

-- A base over five minutes, without a greater maximal backoff, is completed to a maximal backoff that
-- is less than the base: the pause after a failure is then shorter than after a success.
pub complete_shorter :
    (c : Check)
    → 5 * 60 * second < c.base
    → c.max_backoff < c.base
    → (complete c).max_backoff < (complete c).base
unfolding complete
complete_shorter c long less = ground arith

-- The pause after `n` failures in a row that follow a success.
abbrev pub backoff : (base bound n : ℕ) → ℕ
backoff base bound zero = base
backoff base bound (suc n) = min bound (2 * backoff base bound n)

abbrev pub fails : ℕ → List Bool → List Bool
fails zero earlier = earlier
fails (suc n) earlier = false ∷ fails n earlier

backoff-pos : (base bound n : ℕ) → 0 < base → 0 < bound → 0 < backoff base bound n
backoff-pos base bound zero b m = b
backoff-pos base bound (suc n) b m = omega (arith, backoff-pos base bound n b m, m)

-- Each failure in a row doubles the pause, from the base that a success sets up to the maximal backoff.
pub run-backoff :
    (c : Check) (earlier : List Bool) (n : ℕ)
    → 0 < c.base
    → 0 < c.max_backoff
    → (run c (fails n (true ∷ earlier)) start).delay ≡ backoff c.base c.max_backoff n
unfolding run
run-backoff c earlier zero b m = refl
run-backoff c earlier (suc n) b m =
    ground (arith, run-backoff c earlier n b m, backoff-pos c.base c.max_backoff n b m)
