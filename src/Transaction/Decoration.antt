-- ===== src/Transaction/Decoration.antt =====
-- transactional-feature.decoration.ts, transactional-metadata.explorer.ts, the decorators and the
-- providers of packages/transactional/src. Arguments are of any type and values are numbered; a
-- method is told by which object it is called and the store of its context. Logging is left out, but
-- for the text of a call, which can throw.
pub mod Composition
mod Examples
use nestplatform.Base.{
  ℕ, String, Option, none, some, Bool, true, false, List, [], ◌∷◌, ◌==◌, str_eq, if◌then◌else◌,
}
use nestplatform.Common.Stringify.{Text}
use nestplatform.Transaction.Rollback.{Err, type_error, RollbackOnError, not_given}
use nestplatform.Transaction.World.{
  TransactionPhase, TransactionIsolation, Call, M, Result, ok, throw, pure, raise, ◌>>=◌, ◌>>◌,
  then_do,
}
use nestplatform.Transaction.Adapter.{TransactionPropagation, required, TransactionExecuteOptions}
use nestplatform.Transaction.Publisher.{
  TransactionalListenerMetadata, Listeners, register_listener, publish,
}

-- A property of an options object: missing, `undefined`, or a value.
pub data Field {ℓ} (A : Type ℓ) : Type ℓ where
  missing undefined : Field A
  given : A → Field A

-- `{ ...first, ...second }`, at one property.
abbrev pub spread_field : {A : Type 0} → Field A → Field A → Field A
spread_field first missing = first
spread_field first undefined = undefined
spread_field first (given a) = given a

abbrev pub value_of : {A : Type 0} → Field A → Option A
value_of missing = none
value_of undefined = none
value_of (given a) = some a

pub record TransactionalOptions : Type 0 where
  pub propagation : Field TransactionPropagation
  pub isolation : Field TransactionIsolation
  pub adapter : Field String
  pub rollback_on_error : Field RollbackOnError

abbrev pub merged : TransactionalOptions → TransactionalOptions → TransactionalOptions
merged c m = record {
  propagation = spread_field c.propagation m.propagation;
  isolation = spread_field c.isolation m.isolation;
  adapter = spread_field c.adapter m.adapter;
  rollback_on_error = spread_field c.rollback_on_error m.rollback_on_error;
}

-- `{ ...classOptions, ...methodOptions }` where the method has options, else the class's.
unfoldable pub resolved_options :
    Option TransactionalOptions → Option TransactionalOptions → Option TransactionalOptions
resolved_options none none = none
resolved_options none (some m) = some m
resolved_options (some c) none = some c
resolved_options (some c) (some m) = some (merged c m)

-- The object that a method is called on: the provider, or a proxy of it for an adapter's key.
pub data Target : Type 0 where
  itself : Target
  proxied : String → Target

-- `propagation || REQUIRED`, and the two other options.
abbrev or_required : Option TransactionPropagation → TransactionPropagation
or_required none = required
or_required (some p) = p

abbrev or_not_given : Option RollbackOnError → RollbackOnError
or_not_given none = not_given
or_not_given (some r) = r

abbrev pub execute_options : TransactionalOptions → TransactionExecuteOptions
execute_options o = record {
  propagation = or_required (value_of o.propagation);
  isolation = value_of o.isolation;
  rollback_on_error = or_not_given (value_of o.rollback_on_error);
}

-- `execute` of an adapter, in the context of a store or of none.
pub record TransactionAdapter : Type 0 where
  pub execute : Option ℕ → (Option ℕ → M ℕ) → TransactionExecuteOptions → M ℕ

abbrev pub TransactionAdapters : Type 0
TransactionAdapters = List (String × TransactionAdapter)

-- The two providers: an object with an `execute` is the default adapter.
pub data ConfiguredAdapters : Type 0 where
  one : TransactionAdapter → ConfiguredAdapters
  named : TransactionAdapters → ConfiguredAdapters

abbrev pub default_transaction_adapter : String
default_transaction_adapter = "default"

abbrev pub provided : ConfiguredAdapters → TransactionAdapters
provided (one a) = (default_transaction_adapter, a) ∷ []
provided (named adapters) = adapters

abbrev pub adapter_named : String → TransactionAdapters → Option TransactionAdapter
adapter_named k [] = none
adapter_named k ((j, a) ∷ adapters) = if str_eq j k then some a else adapter_named k adapters

abbrev pub first_adapter : TransactionAdapters → Option TransactionAdapter
first_adapter [] = none
first_adapter ((j, a) ∷ adapters) = some a

abbrev or_default : Option String → String
or_default none = default_transaction_adapter
or_default (some k) = if str_eq k "" then default_transaction_adapter else k

abbrev pub adapter_key : TransactionalOptions → String
adapter_key o = or_default (value_of o.adapter)

abbrev or_first : Option TransactionAdapter → Option TransactionAdapter → Option TransactionAdapter
or_first none fallback = fallback
or_first (some a) fallback = some a

unfoldable pub resolved_adapter :
    TransactionAdapters → TransactionalOptions → Option TransactionAdapter
resolved_adapter adapters o =
    or_first (adapter_named (adapter_key o) adapters) (first_adapter adapters)

pub record TransactionalEvent : Type 0 where
  pub event : String
  pub payload : Option (ℕ → Result ℕ)

pub record ListenerMetadata : Type 0 where
  pub event : String
  pub phase : Option TransactionPhase
  pub fallback_execution : Option Bool

abbrev of_result : Result ℕ → M ℕ
of_result (ok n) = pure n
of_result (throw e) = raise e

abbrev pub payload_of : Option (ℕ → Result ℕ) → ℕ → M ℕ
payload_of none result = pure result
payload_of (some f) result = of_result (f result)

abbrev pub Method : Type 0 → Type 0
Method Args = Target → Args → Option ℕ → M ℕ

-- `.bind(instance)`
abbrev bound : {Args : Type 0} → Method Args → Method Args
bound method self args store = method itself args store

-- A method as the explorer sees it, with its metadata; `callback` numbers the method.
pub record MethodContext (Args : Type 0) : Type 0 where
  pub metatype : ℕ
  pub method_ref : Method Args
  pub callback : ℕ
  pub listener : Option ListenerMetadata
  pub no_transactional : Bool
  pub transactional : Option TransactionalOptions
  pub transactional_event : Option TransactionalEvent

-- The explorer's map of class options, and the publisher's listeners.
pub record Explorer : Type 0 where
  pub class_level_options : ℕ → Option TransactionalOptions
  pub listeners : Listeners

unfoldable pub on_provider : ℕ → Option TransactionalOptions → Explorer → Explorer
on_provider metatype none x = x
on_provider metatype (some o) x = record x {
  class_level_options = λ t. if metatype == t then some o else x.class_level_options t;
}

abbrev with_listener : Option ListenerMetadata → ℕ → Listeners → Listeners
with_listener none callback m = m
with_listener (some l) callback m =
    register_listener
      (record {
        event = l.event;
        phase = l.phase;
        fallback_execution = l.fallback_execution;
        callback = callback;
      })
      m

-- The text for the log is made first: where `String` throws for an argument, so does the call.
abbrev pub when_printed : Option Text → M ℕ → M ℕ
when_printed none call = raise type_error
when_printed (some text) call = call

module _ (faults : List Call → Call → Option Err) {Args : Type 0} where
  -- `wrappedWithEvent`, with the listeners that are registered when it is called.
  unfoldable pub wrapped_with_event : Listeners → TransactionalEvent → Method Args → Method Args
  unfolding publish
  wrapped_with_event listeners e original self args store = do
    result ← original self args store
    payload ← payload_of e.payload result
    publish faults listeners store e.event payload
    pure result

-- `method_string` is what `stringifyMethod` makes of the method's name and the arguments, `none` where
-- that throws.
module _ (faults : List Call → Call → Option Err) {Args : Type 0}
    (method_string : Args → Option Text) where
  -- `wrapMethodWithTransaction`: what it sets the method to, if it does.
  unfoldable pub wrap_method_with_transaction :
      TransactionAdapters → Method Args → TransactionalOptions → Option (Method Args)
  unfolding resolved_adapter
  wrap_method_with_transaction adapters original o = elim (resolved_adapter adapters o) [
    | none ↦ none
    | some a ↦ some (λ self args store.
        when_printed (method_string args)
          (a.execute store (λ s. original (proxied (adapter_key o)) args s) (execute_options o)))
  ]

  -- The four cases of event metadata and options: what the method is set to, if anything.
  unfoldable pub wrapper :
      TransactionAdapters
      → Listeners
      → Method Args
      → Option TransactionalEvent
      → Option TransactionalOptions
      → Option (Method Args)
  unfolding wrap_method_with_transaction wrapped_with_event
  wrapper adapters listeners method none none = none
  wrapper adapters listeners method none (some o) = wrap_method_with_transaction adapters method o
  wrapper adapters listeners method (some e) none =
      some (bound (wrapped_with_event faults listeners e method))
  wrapper adapters listeners method (some e) (some o) =
      wrap_method_with_transaction adapters (wrapped_with_event faults listeners e method) o

  -- `onMethod`; `later` are the listeners registered when the method is called.
  unfoldable pub on_method :
      TransactionAdapters
      → Listeners
      → MethodContext Args
      → Explorer
      → Explorer × Option (Method Args)
  unfolding wrapper resolved_options register_listener
  on_method adapters later c x = (
    record x { listeners = with_listener c.listener c.callback x.listeners },
    if c.no_transactional
        then none
        else wrapper adapters later c.method_ref c.transactional_event
            (resolved_options (x.class_level_options c.metatype) c.transactional),
  )
