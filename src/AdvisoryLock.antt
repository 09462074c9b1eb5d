-- ===== src/AdvisoryLock.antt =====
-- packages/distribution-postgres-advisory-lock/src/pglock.service.ts and pglock.util.ts. PostgreSQL is
-- a parameter with the documented behaviour of its session locks. A pool client is the number of its
-- session, and a key is the 64 bits of the resource's hash; the hash is a parameter.
pub mod Wiring
pub mod Sessions
mod Examples
use nestplatform.Base.{
  ℕ, ◌+◌, ◌-◌, ◌≡◌, String, Option, none, some, Bool, true, false, ◌&&◌, List, [], ◌∷◌, ◌++◌, ◌==◌,
  if◌then◌else◌,
}

-- What `pg_try_advisory_lock` answers; `failed` is an error of the query.
pub data Tried : Type 0 where
  granted refused failed : Tried

pub record AdvisoryServer : Type 1 where
  pub State : Type 0
  -- How often a session holds a key.
  pub held : State → ℕ → ℕ → ℕ
  pub try_lock : ℕ → ℕ → State → State × Tried
  -- `none` is a query that failed and changed nothing.
  pub unlock : ℕ → ℕ → State → Option State
  pub held-granted :
      (c k : ℕ) (s s' : State)
      → try_lock c k s ≡ (s', granted)
      → (d j : ℕ) → held s' d j ≡ (if c == d && k == j then held s d j + 1 else held s d j)
  pub held-refused :
      (c k : ℕ) (s s' : State)
      → try_lock c k s ≡ (s', refused)
      → (d j : ℕ) → held s' d j ≡ held s d j
  pub held-failed :
      (c k : ℕ) (s s' : State)
      → try_lock c k s ≡ (s', failed)
      → (d j : ℕ) → held s' d j ≡ held s d j
  -- A key is granted only while no other session holds it.
  pub granted_alone :
      (c k : ℕ) (s s' : State)
      → try_lock c k s ≡ (s', granted)
      → (d : ℕ) → (c == d) ≡ false
      → held s d k ≡ 0
  pub held-unlock :
      (c k : ℕ) (s s' : State)
      → unlock c k s ≡ some s'
      → (d j : ℕ) → held s' d j ≡ (if c == d && k == j then held s d j - 1 else held s d j)

pub data Error : Type 0 where
  resource_locked_exception lock_execution_exception : Error
  other : ℕ → Error

pub data Result (A : Type 0) : Type 0 where
  ok : A → Result A
  throw : Error → Result A

pub record PgLock : Type 0 where
  pub client : ℕ
  pub resources : List String
  pub expiration : ℕ

pub data Event : Type 0 where
  acquired_event aborted_event released_event : Event

module _ (server : AdvisoryServer) (hash_key : String → ℕ) where
  open server use {State, try_lock, unlock}

  -- The server, the sessions that were given back to the pool, and the events that were emitted.
  pub record World : Type 0 where
    pub locks : State
    pub idle : List ℕ
    pub events : List Event

  abbrev pub go_on : State × Tried → (State → State × Tried) → State × Tried
  go_on (s, granted) rest = rest s
  go_on (s, refused) rest = (s, refused)
  go_on (s, failed) rest = (s, failed)

  -- The loop of `acquire`.
  unfoldable pub lock_each : ℕ → List String → State → State × Tried
  lock_each c [] s = (s, granted)
  lock_each c (r ∷ rs) s = go_on (try_lock c (hash_key r) s) (lock_each c rs)

  -- After the loop: the handle, or the client back in the pool and an exception.
  abbrev pub settled : ℕ → List String → ℕ → World → State × Tried → World × Result PgLock
  settled c rs expiration w (s, granted) =
      (record w { locks = s }, ok (record { client = c; resources = rs; expiration = expiration }))
  settled c rs expiration w (s, refused) =
      (record w { locks = s; idle = c ∷ w.idle }, throw resource_locked_exception)
  settled c rs expiration w (s, failed) =
      (record w { locks = s; idle = c ∷ w.idle }, throw lock_execution_exception)

  -- `acquire` with the client that the pool gives, at the time `now`.
  unfoldable pub acquire : ℕ → ℕ → List String → ℕ → World → World × Result PgLock
  unfolding lock_each
  acquire c now rs duration w = settled c rs (now + duration) w (lock_each c rs w.locks)

  abbrev pub unlocked : State → Option State → State
  unlocked s none = s
  unlocked s (some s') = s'

  -- `Promise.allSettled` over the unlock queries.
  unfoldable pub unlock_each : ℕ → List String → State → State
  unlock_each c [] s = s
  unlock_each c (r ∷ rs) s = unlock_each c rs (unlocked s (unlock c (hash_key r) s))

  unfoldable pub release : PgLock → World → World
  unfolding unlock_each
  release l w = record w {
    locks = unlock_each l.client l.resources w.locks;
    idle = l.client ∷ w.idle;
  }

  unfoldable pub extend : PgLock → ℕ → ℕ → PgLock
  extend l now duration = record l { expiration = now + duration }

  abbrev pub emit : Event → World → World
  emit e w = record w { events = w.events ++ e ∷ [] }

  module _ {T : Type 0} where
    -- The `catch` and `finally` of `withLock`.
    abbrev pub finished : PgLock → World × Result T → World × Result T
    finished l (w, ok x) = (release l (emit released_event w), ok x)
    finished l (w, throw e) = (release l (emit released_event (emit aborted_event w)), throw e)

    abbrev pub handled : (World → World × Result T) → World × Result PgLock → World × Result T
    handled handler (w, throw e) = (w, throw e)
    handled handler (w, ok l) = finished l (handler (emit acquired_event w))

    unfoldable pub with_lock :
        ℕ → ℕ → List String → ℕ → (World → World × Result T) → World → World × Result T
    unfolding acquire release
    with_lock c now rs duration handler w = handled handler (acquire c now rs duration w)
