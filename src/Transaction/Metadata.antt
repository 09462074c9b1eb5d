-- ===== src/Transaction/Metadata.antt =====
-- packages/transactional/src: the decorators, transactional-metadata.accessor.ts and
-- transactional.module.ts. A class or method has at most one value of each metadata key, the last
-- that a decorator sets.
use nestplatform.Base.{ℕ, String, Option, none, some, Bool, true, false, [], ◌∷◌}
use nestplatform.Common.Modules.{
  InjectionToken, text, class, given, ModuleConfigBase, DynamicModule, config,
}
use nestplatform.Transaction.World.{TransactionPhase, Result}
use nestplatform.Transaction.Decoration.{
  missing, TransactionalOptions, TransactionalEvent, ListenerMetadata, Method, MethodContext,
}

pub record Metadata : Type 0 where
  pub transactional : Option TransactionalOptions
  pub no_transactional : Option Bool
  pub event_listener : Option ListenerMetadata
  pub transactional_event : Option TransactionalEvent

abbrev pub undecorated : Metadata
undecorated = record {
  transactional = none;
  no_transactional = none;
  event_listener = none;
  transactional_event = none;
}

abbrev pub no_options : TransactionalOptions
no_options = record {
  propagation = missing;
  isolation = missing;
  adapter = missing;
  rollback_on_error = missing;
}

-- `options || {}`
abbrev pub options_or_empty : Option TransactionalOptions → TransactionalOptions
options_or_empty none = no_options
options_or_empty (some o) = o

-- `Transactional` and `NoTransactional`
abbrev pub transactional_decorator : Option TransactionalOptions → Metadata → Metadata
transactional_decorator options m = record m { transactional = some (options_or_empty options) }

abbrev pub no_transactional_decorator : Metadata → Metadata
no_transactional_decorator m = record m { no_transactional = some true }

-- `TransactionalEventListener` and `TransactionalEvent`: the event's name stands behind the options
-- that are spread.
pub record ListenerOptions : Type 0 where
  pub phase : Option TransactionPhase
  pub fallback_execution : Option Bool

abbrev pub listener_phase : Option ListenerOptions → Option TransactionPhase
listener_phase none = none
listener_phase (some o) = o.phase

abbrev pub listener_fallback : Option ListenerOptions → Option Bool
listener_fallback none = none
listener_fallback (some o) = o.fallback_execution

abbrev pub event_listener_decorator : String → Option ListenerOptions → Metadata → Metadata
event_listener_decorator event o m = record m {
  event_listener = some (record {
    event = event;
    phase = listener_phase o;
    fallback_execution = listener_fallback o;
  });
}

abbrev pub event_decorator : String → Option (ℕ → Result ℕ) → Metadata → Metadata
event_decorator event payload m = record m {
  transactional_event = some (record { event = event; payload = payload });
}

-- The accessor.
abbrev pub get_transactional_metadata : Metadata → Option TransactionalOptions
get_transactional_metadata m = m.transactional

abbrev pub is_present : Option TransactionalOptions → Bool
is_present none = false
is_present (some o) = true

abbrev pub is_transactional : Metadata → Bool
is_transactional m = is_present (get_transactional_metadata m)

abbrev pub truthy : Option Bool → Bool
truthy none = false
truthy (some b) = b

-- What the explorer is given for a method, and reads from it.
abbrev pub method_context : {Args : Type 0} → ℕ → Method Args → ℕ → Metadata → MethodContext Args
method_context metatype method callback m = record {
  metatype = metatype;
  method_ref = method;
  callback = callback;
  listener = m.event_listener;
  no_transactional = truthy m.no_transactional;
  transactional = get_transactional_metadata m;
  transactional_event = m.transactional_event;
}

pub data TransactionalProvider : Type 0 where
  adapters metadata_explorer metadata_accessor feature_decoration event_publisher proxy_factory :
      TransactionalProvider
  other : InjectionToken → TransactionalProvider

abbrev pub event_publisher_class : InjectionToken
event_publisher_class = class 4

abbrev pub provide : TransactionalProvider → InjectionToken
provide adapters = text "token:TRANSACTION_ADAPTERS"
provide metadata_explorer = class 1
provide metadata_accessor = class 2
provide feature_decoration = class 3
provide event_publisher = event_publisher_class
provide proxy_factory = class 5
provide (other t) = t

-- `register` and `registerAsync`, which differ in what makes the adapters only.
unfoldable pub register :
    ModuleConfigBase TransactionalProvider → DynamicModule TransactionalProvider
unfolding config
register c = config c (record {
  global = given true;
  imports = some (class 0 ∷ []);
  providers = some (
      adapters ∷ metadata_explorer ∷ metadata_accessor ∷ feature_decoration ∷ event_publisher
      ∷ proxy_factory ∷ []);
  exports = some (event_publisher_class ∷ []);
})
