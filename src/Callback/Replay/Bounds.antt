-- ===== src/Callback/Replay/Bounds.antt =====
-- internal/security/callback/replay.go: the memory of a guard, over its calls.
use home_sentinel.Base.{ℕ, ◌≤◌, ◌≡◌, refl, ◌∙◌, String, some, List, [], ◌∷◌, length, lookup, arith}
use home_sentinel.Callback.Claims.{Claims}
use home_sentinel.Callback.Replay.{ReplayGuard, consume}
use home_sentinel.Callback.Replay.Invariant.{Queued, Inv, empty-Inv, consume-Inv}
use home_sentinel.Callback.Replay.Once.{consume_all, max-consume}

consume_all-Inv :
    (wall : ℕ) (g : ReplayGuard) (calls : List (Claims × ℕ))
    → Inv g
    → Inv (consume_all wall g calls)
unfolding consume_all
consume_all-Inv wall g [] v = v
consume_all-Inv wall g ((c, now) ∷ rest) v =
    consume_all-Inv wall (consume wall g c now).0 rest (consume-Inv wall g c now v)

max-consume_all :
    (wall : ℕ) (g : ReplayGuard) (calls : List (Claims × ℕ))
    → (consume_all wall g calls).max ≡ g.max
unfolding consume_all
max-consume_all wall g [] = refl
max-consume_all wall g ((c, now) ∷ rest) =
    max-consume_all wall (consume wall g c now).0 rest ∙ max-consume wall g c now

abbrev pub new_guard : ℕ → ReplayGuard
new_guard max = record { max = max; seen = []; ordered = [] }

-- Whatever calls of `Consume` are made on a new guard, of valid, expired or replayed tokens and at any clocks,
-- the queue holds at most `max` admissions, and the map remembers a key only as long as an admission with that
-- expiry is in the queue.
pub consume_all-bounds :
    (wall max : ℕ) (calls : List (Claims × ℕ))
    → (length (consume_all wall (new_guard max) calls).ordered ≤ max)
      × ((k : String) (t : ℕ)
          → lookup k (consume_all wall (new_guard max) calls).seen ≡ some t
          → Queued k t (consume_all wall (new_guard max) calls).ordered)
consume_all-bounds wall max calls =
    let v = consume_all-Inv wall (new_guard max) calls (empty-Inv max) in
    (omega (arith, v.bounded, max-consume_all wall (new_guard max) calls), v.agree.backed)
