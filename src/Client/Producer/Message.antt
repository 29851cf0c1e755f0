-- ===== src/Client/Producer/Message.antt =====
-- What a message that `_build_msg` builds carries.
use mathlib.Core.Path.{subst}
use mathlib.Core.List.{append-nil}
use pulsar_client_python.Base.{
  ◌≡◌, refl, ◌∙◌, String, Option, none, some, List, [], ◌∷◌, ◌++◌, All, str_eq, if◌then◌else◌,
}
use pulsar_client_python.Base.Int.{pos}
use pulsar_client_python.Python.Result.{Result, ok, >>=-eq-ok}
use pulsar_client_python.Client.Argument.{
  Arg, truthy, is_instance, Passes, run_checks, run_checks_iff,
}
use pulsar_client_python.Client.Native.{
  Setting, Optional, optionally, set_each, properties_calls, setting, properties_of, Accepts,
  configure,
}
use pulsar_client_python.Client.Native.Laws.{
  given, or_later_none, setting-append, setting-set_each, setting-properties_calls,
  properties_of-append, properties_of-set_each, properties_of-properties_calls, items,
}
use pulsar_client_python.Client.Producer.{MessageArgs, message_checks, message_settings, build_msg}

-- An option is left out if its value is false for `if`: `None`, 0, an empty text or list, `False`.
abbrev pub when_given : Arg → Option Arg
when_given a = if truthy a then some a else none

pub record Carries (body : Arg) (m : MessageArgs) (msg : List Setting) : Type 0 where
  pub content : setting "content" msg ≡ some body
  pub properties : properties_of msg ≡ items m.properties
  pub partition_key : setting "partition_key" msg ≡ when_given m.partition_key
  pub ordering_key : setting "ordering_key" msg ≡ when_given m.ordering_key
  pub sequence_id : setting "sequence_id" msg ≡ when_given m.sequence_id
  pub replication_clusters : setting "replication_clusters" msg ≡ when_given m.replication_clusters
  pub disable_replication : setting "disable_replication" msg ≡ when_given m.disable_replication
  pub event_timestamp : setting "event_timestamp" msg ≡ when_given m.event_timestamp
  pub deliver_at : setting "deliver_at" msg ≡ when_given m.deliver_at
  pub deliver_after : setting "deliver_after" msg ≡ when_given m.deliver_after

message_options : MessageArgs → List Optional
message_options m =
    optionally "partition_key" m.partition_key
    ∷ optionally "ordering_key" m.ordering_key
    ∷ optionally "sequence_id" m.sequence_id
    ∷ optionally "replication_clusters" m.replication_clusters
    ∷ optionally "disable_replication" m.disable_replication
    ∷ optionally "event_timestamp" m.event_timestamp
    ∷ optionally "deliver_at" m.deliver_at
    ∷ optionally "deliver_after" m.deliver_after
    ∷ []

-- Properties and optional calls: only an optional call leaves a value under a name.
setting-options :
    (name : String) (m : MessageArgs)
    → setting name (properties_calls m.properties ++ set_each (message_options m))
      ≡ given name (message_options m)
setting-options name m =
    setting-append name (properties_calls m.properties) (set_each (message_options m))
    ∙ rw (setting-properties_calls name m.properties) (
        rw (setting-set_each name (message_options m))
          (or_later_none (given name (message_options m))))

message_settings-Carries : (body : Arg) (m : MessageArgs) → Carries body m (message_settings body m)
unfolding message_settings setting str_eq properties_of message_options given
message_settings-Carries body m = record {
  content = rw (setting-options "content" m);
  properties =
      properties_of-append (properties_calls m.properties) (set_each (message_options m))
      ∙ rw (properties_of-set_each (message_options m))
          (append-nil _ ∙ properties_of-properties_calls m.properties);
  partition_key = setting-options "partition_key" m;
  ordering_key = setting-options "ordering_key" m;
  sequence_id = setting-options "sequence_id" m;
  replication_clusters = setting-options "replication_clusters" m;
  disable_replication = setting-options "disable_replication" m;
  event_timestamp = setting-options "event_timestamp" m;
  deliver_at = setting-options "deliver_at" m;
  deliver_after = setting-options "deliver_after" m;
}

-- A message that `_build_msg` returns carries the encoded content, the properties in their order, and
-- each option that `if` takes for given; the options that it does not are absent. It is built from
-- arguments of the documented types only.
pub build_msg-Carries {ℓ} :
    {A : Type ℓ} (accepts : Accepts) (encode : A → Result Arg) (content : A) (m : MessageArgs)
    (msg : List Setting)
    → build_msg accepts encode content m ≡ ok msg
    → (body : Arg) × (encode content ≡ ok body)
      × All Passes (message_checks body m)
      × Carries body m msg
unfolding build_msg
build_msg-Carries accepts encode content m msg h =
    let (body, encoded, h₁) = >>=-eq-ok (encode content) _ h in
    let (_, checked, h₂) = >>=-eq-ok (run_checks (message_checks body m)) _ h₁ in
    let (_, accepted, h₃) = >>=-eq-ok (configure accepts (message_settings body m)) _ h₂ in
    let e : message_settings body m ≡ msg = cc in
    (
      body,
      encoded,
      (run_checks_iff (message_checks body m)).0 checked,
      subst (Carries body m) e (message_settings-Carries body m),
    )

-- A sequence id of 0 is lost: the message is the one that is built when no sequence id is given.
pub build_msg-zero_sequence_id {ℓ} :
    {A : Type ℓ} (accepts : Accepts) (encode : A → Result Arg) (content : A) (m : MessageArgs)
    → build_msg accepts encode content (record m { sequence_id = Arg.int (pos 0) })
      ≡ build_msg accepts encode content (record m { sequence_id = Arg.none })
unfolding build_msg message_checks message_settings run_checks set_each truthy is_instance
build_msg-zero_sequence_id accepts encode content m = refl
