-- ===== src/Callback/Replay.antt =====
-- internal/security/callback/replay.go: the bounded replay filter. The map `seen` holds the expiry
-- that each key was admitted with, and `ordered` is the queue of all admissions, the oldest first.
pub mod Invariant
pub mod Once
pub mod Bounds
use home_sentinel.Base.{
  ℕ, String, ◌<>◌, Bool, ◌||◌, Option, none, some, List, [], ◌∷◌, ◌++◌, ltb, leb, ◌==◌,
  if◌then◌else◌, is_blank, length, Dict, lookup, insert, erase,
}
use home_sentinel.Callback.Claims.{Err, Claims, time_unix, or_wall}

pub record Entry : Type 0 where
  pub key : String
  pub expires_at : ℕ

pub record ReplayGuard : Type 0 where
  pub max : ℕ
  pub seen : Dict ℕ
  pub ordered : List Entry

unfoldable pub new_replay_guard : ℕ → Option ReplayGuard
new_replay_guard max_entries =
    if max_entries == 0 then none else some (record { max = max_entries; seen = []; ordered = [] })

-- `if current, ok := g.seen[entry.key]; ok && current.Equal(entry.expiresAt) { delete(...) }`.
unfoldable pub forget : Entry → Dict ℕ → Dict ℕ
forget e seen = elim (lookup e.key seen) [
  | none ↦ seen
  | some t ↦ if t == e.expires_at then erase e.key seen else seen
]

-- `prune`: drops the expired entries at the head of the queue.
unfoldable pub prune : ℕ → Dict ℕ → List Entry → Dict ℕ × List Entry
prune now seen [] = (seen, [])
prune now seen (e ∷ es) =
    if ltb now e.expires_at then (seen, e ∷ es) else prune now (forget e seen) es

-- The loop that shrinks the queue to its capacity.
unfoldable pub evict : ℕ → Dict ℕ → List Entry → Dict ℕ × List Entry
evict max seen [] = (seen, [])
evict max seen (e ∷ es) =
    if ltb max (length (e ∷ es)) then evict max (forget e seen) es else (seen, e ∷ es)

abbrev pub replay_key : Claims → String
replay_key c = c.key_id <> ("\0" <> c.nonce)

-- `ok && current.After(now)`.
abbrev pub is_after : Option ℕ → ℕ → Bool
is_after none now = Bool.false
is_after (some t) now = ltb now t

-- The critical section of `Consume`, from `prune` on.
unfoldable pub admit : ReplayGuard → (key : String) → (expires now : ℕ) → ReplayGuard × Option Err
admit g key expires now =
    let (seen, ordered) = prune now g.seen g.ordered in
    if is_after (lookup key seen) now
    then (record g { seen = seen; ordered = ordered }, some Err.replay)
    else let (seen', ordered') =
        evict g.max (insert key expires seen)
          (ordered ++ record { key = key; expires_at = expires } ∷ []) in
      (record g { seen = seen'; ordered = ordered' }, none)

unfoldable pub consume : ℕ → ReplayGuard → Claims → ℕ → ReplayGuard × Option Err
unfolding time_unix
consume wall g c now =
    let t = or_wall wall now in
    let expires = time_unix c.expires_at in
    if is_blank c.key_id || is_blank c.nonce
    then (g, some Err.invalid_token)
    else if leb expires t
    then (g, some Err.expired)
    else admit g (replay_key c) expires t
