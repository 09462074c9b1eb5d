-- ===== src/Redlock/Holding/Outliving.antt =====
-- What becomes of the extensions of `withLock` once its handler has ended.
use nestplatform.Base.{ℕ, ◌+◌, ◌≡◌, ◌≢◌, ◌⊎◌, inl, inr, String, true, List, arith}
use nestplatform.Base.Int.{ℤ}
use nestplatform.Redlock.Execute.{RedlockConfig}
use nestplatform.Redlock.Service.{Runtime}
use nestplatform.Redlock.Holding.{
  running, Holding, timer_fires, extension_succeeds, extension_fails, handler_settles,
  release_settles, Step, fires, extends, fails, settles, releases, Steps, here, next,
}
use nestplatform.Redlock.Holding.Invariant.{Inv, Step-Inv, handler_settles-Inv}

-- An extension has failed, or the next one is scheduled or under way.
abbrev pub Extends : Holding → Type 0
Extends h = (h.signal.aborted ≡ true) ⊎ (h.armed + h.in_flight ≡ 1)

-- No timer is set and no extension under way.
abbrev pub Quiet : Holding → Type 0
Quiet h = h.armed + h.in_flight ≡ 0

module _ (t : Runtime) (config : RedlockConfig) (d : ℤ) (fuel : ℕ) (ks : List String)
    (v : String) where
  Step-ended : {h h' : Holding} → Step t config d fuel h h' → h.phase ≢ running → h'.phase ≢ running
  unfolding timer_fires extension_succeeds extension_fails handler_settles release_settles
  Step-ended (fires h n armed) ended = ground arith
  Step-ended (extends h n old new w w' flying extended_to) ended = ended
  Step-ended (fails h n old e w w' flying failed) ended = ended
  Step-ended (settles h phase) ended = absurd (ended phase)
  Step-ended (releases h phase) ended = λ e. cc

  Step-Extends :
      {h h' : Holding}
      → Step t config d fuel h h'
      → h.phase ≢ running
      → Inv ks v h
      → Extends h
      → Extends h'
  unfolding timer_fires extension_succeeds extension_fails handler_settles release_settles
  Step-Extends (fires h n armed) ended i x = ground arith
  Step-Extends (extends h n old new w w' flying extended_to) ended i x = ground arith
  Step-Extends (fails h n old e w w' flying failed) ended i x = inl (ground arith)
  Step-Extends (settles h phase) ended i x = absurd (ended phase)
  Step-Extends (releases h phase) ended i x = x

  Step-Quiet : {h h' : Holding} → Step t config d fuel h h' → h.phase ≢ running → Quiet h → Quiet h'
  unfolding timer_fires extension_succeeds extension_fails handler_settles release_settles
  Step-Quiet (fires h n armed) ended q = absurd (omega arith)
  Step-Quiet (extends h n old new w w' flying extended_to) ended q = absurd (omega arith)
  Step-Quiet (fails h n old e w w' flying failed) ended q = absurd (omega arith)
  Step-Quiet (settles h phase) ended q = absurd (ended phase)
  Step-Quiet (releases h phase) ended q = q

  Steps-Extends :
      {h h' : Holding}
      → Steps t config d fuel h h'
      → h.phase ≢ running
      → Inv ks v h
      → Extends h
      → Extends h'
  Steps-Extends (here h) ended i x = x
  Steps-Extends (next h m h' s rest) ended i x =
      Steps-Extends rest (Step-ended s ended) (Step-Inv t config d fuel ks v s i)
        (Step-Extends s ended i x)

  Steps-Quiet :
      {h h' : Holding} → Steps t config d fuel h h' → h.phase ≢ running → Quiet h → Quiet h'
  Steps-Quiet (here h) ended q = q
  Steps-Quiet (next h m h' s rest) ended q =
      Steps-Quiet rest (Step-ended s ended) (Step-Quiet s ended q)

  -- From the moment at which the handler ends on, where the invariant of `withLock` holds till then, and
  -- whatever then happens, in whatever order: if an
  -- extension was under way at that moment, there is always a timer set or an extension under way, even
  -- after the release has settled, unless an extension has failed; if none was, no timer is set and no
  -- extension under way ever again.
  pub with_lock_outlived :
      (h h' : Holding)
      → Inv ks v h
      → h.phase ≡ running
      → Steps t config d fuel (handler_settles h) h'
      → ((h.in_flight ≡ 1) → (h'.signal.aborted ≡ true) ⊎ (h'.armed + h'.in_flight ≡ 1))
        × ((h.in_flight ≡ 0) → h'.armed + h'.in_flight ≡ 0)
  unfolding handler_settles
  with_lock_outlived h h' i phase steps =
      let ended : (handler_settles h).phase ≢ running = λ e. cc in
      (
        λ flying.
            Steps-Extends steps ended (handler_settles-Inv ks v h phase i) (inr (ground arith)),
        λ idle. Steps-Quiet steps ended (ground arith),
      )
