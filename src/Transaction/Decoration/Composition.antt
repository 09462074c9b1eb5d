-- ===== src/Transaction/Decoration/Composition.antt =====
-- A `@Transactional` method that is also a `@TransactionalEvent`, with the TypeORM adapter.
use nestplatform.Base.{ℕ, ◌≡◌, refl, ap, ◌∙◌, Option, some, Bool, true, List, [], ◌∷◌, ◌++◌}
use nestplatform.Common.Stringify.{Text}
use nestplatform.Transaction.Rollback.{Err, typeorm_should_rollback}
use nestplatform.Transaction.World.{
  TransactionPhase, before_commit, after_commit, after_completion, Call, connect, start, commit,
  release, World, Result, ok, throw, M,
}
use nestplatform.Transaction.Adapter.{
  required, typeorm_execute, by_propagation, execute_required, run_in_new_transaction,
}
use nestplatform.Transaction.Adapter.Traces.{log_all, phase_calls}
use nestplatform.Transaction.Adapter.Endings.{rollback_calls}
use nestplatform.Transaction.Adapter.Faultless.{Quiet}
use nestplatform.Transaction.Adapter.Propagation.{begun, StartsNew, by_propagation_new}
use nestplatform.Transaction.Adapter.Opening.{new_transaction_commits, new_transaction_throws}
use nestplatform.Transaction.Publisher.{
  TransactionalListenerMetadata, Listeners, get_listeners, listed,
}
use nestplatform.Transaction.Publisher.Phases.{
  phase_listeners, phase_calls-append, phase_calls-deferrals, deferrals, Defers, publish_inside,
}
use nestplatform.Transaction.Decoration.{
  Target, TransactionAdapter, TransactionAdapters, TransactionalOptions, TransactionalEvent, Method,
  proxied, adapter_key, execute_options, resolved_adapter, payload_of, when_printed, wrapper,
  wrap_method_with_transaction, wrapped_with_event,
}

module _ (faults : List Call → Call → Option Err) where
  -- The phases of a store that one event more waits in.
  phase_calls_deferred :
      (q : TransactionPhase) (r p : ℕ) (ls : List TransactionalListenerMetadata) (u u' : World)
      → Defers faults r p ls u u'
      → phase_calls q (u'.synchronizations r)
        ≡ phase_calls q (u.synchronizations r) ++ phase_listeners q p ls
  phase_calls_deferred q r p ls u u' d =
      ap (phase_calls q) d.deferring
      ∙ phase_calls-append q (u.synchronizations r) (deferrals p ls)
      ∙ ap (◌++◌ (phase_calls q (u.synchronizations r))) (phase_calls-deferrals q p ls)

module _ (faults : List Call → Call → Option Err) {Args : Type 0}
    (method_string : Args → Option Text) where
  wrap_resolved :
      (adapters : TransactionAdapters) (original : Method Args) (o : TransactionalOptions)
      (a : TransactionAdapter)
      → resolved_adapter adapters o ≡ some a
      → wrap_method_with_transaction faults method_string adapters original o
        ≡ some (λ self args store.
          when_printed
            (method_string args)
            (a.execute store (λ s. original (proxied (adapter_key o)) args s) (execute_options o)))
  unfolding wrap_method_with_transaction
  wrap_resolved adapters original o a h = rw (h, wrap_method_with_transaction) refl

  module _ (listeners : Listeners) (e : TransactionalEvent) (original : Method Args)
      (adapters : TransactionAdapters) (o : TransactionalOptions)
      (is_released : List Call → ℕ → Bool) (savepoint_name : List Call → ℕ) where
    -- The adapter that the options name is the TypeORM adapter.
    abbrev pub UsesTypeOrm : Type 0
    UsesTypeOrm =
        resolved_adapter adapters o
        ≡ some (record {
          execute =
              λ store callback. typeorm_execute faults is_released savepoint_name store callback;
        })

    abbrev pub of_event : List TransactionalListenerMetadata
    of_event = listed (get_listeners e.event listeners)

    event_method :
        (args : Args) (r v p : ℕ) (w u : World)
        → original (proxied (adapter_key o)) args (some r) w ≡ (u, ok v)
        → payload_of e.payload v u ≡ (u, ok p)
        → (u' : World) × (wrapped_with_event faults listeners e original
              (proxied (adapter_key o))
              args
              (some r)
              w
            ≡ (u', ok v))
          × Defers faults r p of_event u u'
    unfolding wrapped_with_event
    event_method args r v p w u called payload =
        let (u', published, d) = publish_inside faults listeners r e.event p u in
        (u', rw (called, payload, published) refl, d)

    module _ (uses : UsesTypeOrm) where
      -- What the method is set to.
      abbrev decorated : Method Args
      decorated self args store = when_printed (method_string args) (
          typeorm_execute faults is_released savepoint_name store
            (λ s. wrapped_with_event faults listeners e original (proxied (adapter_key o)) args s)
            (execute_options o))

      wrapper-decorated :
          wrapper faults method_string adapters listeners original (some e) (some o)
          ≡ some decorated
      unfolding wrapper
      wrapper-decorated =
          wrap_resolved adapters (wrapped_with_event faults listeners e original) o _ uses

      decorated_new :
          (self : Target) (args : Args) (text : Text) (store : Option ℕ) (w : World)
          → method_string args ≡ some text
          → StartsNew (execute_options o).propagation store
          → decorated self args store w
            ≡ run_in_new_transaction faults
                (λ s.
                  wrapped_with_event faults listeners e original (proxied (adapter_key o)) args s)
                (execute_options o)
                w
      unfolding typeorm_execute
      decorated_new self args text store w printed new =
          ap
            (λ q.
              when_printed q
                (typeorm_execute faults is_released savepoint_name store
                  (λ s.
                    wrapped_with_event faults listeners e original (proxied (adapter_key o)) args s)
                  (execute_options o))
                w)
            printed
          ∙ ap (λ (m : M ℕ). m w)
              (by_propagation_new faults
                (λ s.
                  wrapped_with_event faults listeners e original (proxied (adapter_key o)) args s)
                (execute_options o) is_released savepoint_name (execute_options o).propagation store
                new)

      module _ (self : Target) (args : Args) (text : Text) (store : Option ℕ) (w u : World)
          (quiet : Quiet faults) (printed : method_string args ≡ some text) where
        abbrev pub opened : World
        opened = begun (connect w.next_runner) (start w.next_runner (execute_options o).isolation) w

        -- The calls of a phase: those of the synchronizations that the method's own body left, and
        -- then the listeners of the event.
        abbrev pub phase : TransactionPhase → ℕ → List Call
        phase q p = phase_calls q (u.synchronizations w.next_runner) ++ phase_listeners q p of_event

        -- A call of a method that is both `@Transactional` and `@TransactionalEvent`, where the
        -- adapter opens a transaction, `String` takes the arguments, the method returns `v`, its payload
        -- is `p` and no call throws.
        -- The caller gets `v`, and after the method's own calls there are, in this order: the
        -- event's listeners for before the commit, the commit, its listeners for after the commit
        -- and for after completion, each behind the synchronizations that the method left, and the
        -- release.
        pub transactional_event_commits :
            (v p : ℕ)
            → StartsNew (execute_options o).propagation store
            → original (proxied (adapter_key o)) args (some w.next_runner) opened ≡ (u, ok v)
            → payload_of e.payload v u ≡ (u, ok p)
            → (f : Method Args) × (wrapper faults method_string adapters listeners original
                  (some e)
                  (some o)
                ≡ some f)
              × ((f self args store w).1 ≡ ok v)
              × ((f self args store w).0.calls
                  ≡ u.calls
                    ++ ((phase before_commit p
                          ++ commit w.next_runner
                            ∷ (phase after_commit p ++ phase after_completion p))
                        ++ release w.next_runner ∷ []))
        transactional_event_commits v p new called payload =
            let (u', event, d) = event_method args w.next_runner v p opened u called payload in
            let whole =
              decorated_new self args text store w printed new
              ∙ new_transaction_commits faults
                  (λ s.
                    wrapped_with_event faults listeners e original (proxied (adapter_key o)) args s)
                  (execute_options o) w u' v quiet event in
            (
              decorated,
              wrapper-decorated,
              ap (λ (z : World × Result ℕ). z.1) whole,
              ap (λ (z : World × Result ℕ). z.0.calls) whole
                  ∙ rw
                      (
                        d.quiet_so_far,
                        phase_calls_deferred faults before_commit w.next_runner p of_event u u' d,
                        phase_calls_deferred faults after_commit w.next_runner p of_event u u' d,
                        phase_calls_deferred faults after_completion w.next_runner p of_event u u'
                            d,
                      )
                      refl,
            )

        -- A call of a method that is both `@Transactional` and `@TransactionalEvent`, where the adapter
        -- opens a transaction for it, `String` takes the arguments, no call of the driver and no hook throws, and the method throws
        -- an error that is rolled back for: the caller gets the error, and after the method's own
        -- calls there are the rollback, what the method itself left for after a rollback and after
        -- completion, and the release. The event is not published.
        pub transactional_event_throws :
            (x : Err)
            → StartsNew (execute_options o).propagation store
            → original (proxied (adapter_key o)) args (some w.next_runner) opened ≡ (u, throw x)
            → typeorm_should_rollback x (execute_options o).rollback_on_error ≡ some true
            → (f : Method Args) × (wrapper faults method_string adapters listeners original
                  (some e)
                  (some o)
                ≡ some f)
              × (f self args store w ≡ (
                log_all
                    (rollback_calls w.next_runner (u.synchronizations w.next_runner)
                      ++ release w.next_runner ∷ [])
                    u,
                throw x,
              ))
        unfolding wrapped_with_event
        transactional_event_throws x new called decision = (
          decorated,
          wrapper-decorated,
          decorated_new self args text store w printed new
              ∙ new_transaction_throws faults
                  (λ s.
                    wrapped_with_event faults listeners e original (proxied (adapter_key o)) args s)
                  (execute_options o) w u x true quiet (rw called refl) decision,
        )

      -- A call of a method that is both `@Transactional`, with the propagation REQUIRED, and
      -- `@TransactionalEvent`, in the context of a transaction, where `String` takes the arguments
      -- and the method returns: it opens none. The caller gets what the method returned; nothing is called but by the method itself;
      -- and the event waits in the transaction around it, behind what waits there already.
      pub transactional_event_joins :
          (self : Target) (args : Args) (text : Text) (r v p : ℕ) (w u : World)
          → method_string args ≡ some text
          → (execute_options o).propagation ≡ required
          → original (proxied (adapter_key o)) args (some r) w ≡ (u, ok v)
          → payload_of e.payload v u ≡ (u, ok p)
          → (f : Method Args) × (wrapper faults method_string adapters listeners original
                (some e)
                (some o)
              ≡ some f)
            × (u' : World) × (f self args (some r) w ≡ (u', ok v))
            × (u'.calls ≡ u.calls)
            × (u'.synchronizations r ≡ u.synchronizations r ++ deferrals p of_event)
      unfolding typeorm_execute by_propagation execute_required
      transactional_event_joins self args text r v p w u printed join called payload =
          let (u', event, d) = event_method args r v p w u called payload in
          (
            decorated,
            wrapper-decorated,
            u',
            rw (printed, join, by_propagation) event,
            d.quiet_so_far,
            d.deferring,
          )
