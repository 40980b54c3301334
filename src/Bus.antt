-- ===== src/Bus.antt =====
-- internal/bus: the fan-out of chat events over Kafka. The proofs are in the modules below.
pub mod Consumer
pub mod Lifecycle
use blahaj_chat_server.Common.{
  ℕ, suc, Bool, true, false, ◌&&◌, not, Option, none, some, List, [], ◌∷◌, if◌then◌else◌, Text,
  codes, length, ◌==◌, ◌||◌, ◌++◌,
}
use blahaj_chat_server.Errors.{Error, Result, ok, err}
use blahaj_chat_server.Model.{UserId}

-- `ChatEvent` of bus.go.
pub record ChatEvent : Type 0 where
  pub msg_id : Text
  pub conv_id : Text
  pub targets : List UserId
  pub frame : Text

-- What `FetchMessage` returns: the context has ended; another error, and whether the context ends in
-- the pause of 500 ms after it; or a message with its offset.
pub data Fetched : Type 0 where
  canceled : Fetched
  failed : Bool → Fetched
  message : ℕ → Text → Fetched

-- What the loop does to the outside: a call of `onEvent`, a call of `CommitMessages`. The results of
-- both are only logged.
pub data Action : Type 0 where
  handle : ChatEvent → Action
  commit : ℕ → Action

module _ (decode : Text → Option ChatEvent) where
  -- The loop of `Run`, on the results that its fetches have; at the end of them it waits for more.
  unfoldable pub consume : List Fetched → List Action
  consume [] = []
  consume (Fetched.canceled ∷ more) = []
  consume (Fetched.failed done ∷ more) = let rest = consume more in if done then [] else rest
  consume (Fetched.message offset value ∷ more) =
      let rest = consume more in
      elim (decode value) [
        | none ↦ Action.commit offset ∷ rest
        | some e ↦ Action.handle e ∷ Action.commit offset ∷ rest
      ]

-- `KafkaBus` as far as its methods change it: the two `sync.Once`, the flags, whether the consumer's
-- goroutine has not ended, the error that `Close` keeps, and how often a consumer was started, the
-- writer and the reader closed, and a message written.
pub record KafkaBus : Type 0 where
  pub run_done : Bool
  pub close_done : Bool
  pub started : Bool
  pub closed : Bool
  pub canceled : Bool
  pub running : Bool
  pub close_err : Option Error
  pub consumers : ℕ
  pub writer_closes : ℕ
  pub reader_closes : ℕ
  pub written : List ChatEvent

-- The value that `NewKafka` returns at its end.
abbrev pub new_kafka : KafkaBus
new_kafka = record {
  run_done = false;
  close_done = false;
  started = false;
  closed = false;
  canceled = false;
  running = false;
  close_err = none;
  consumers = 0;
  writer_closes = 0;
  reader_closes = 0;
  written = [];
}

-- `Run`
unfoldable pub run : KafkaBus → KafkaBus
run k =
    if k.run_done
    then k
    else if k.closed
    then record k { run_done = true }
    else record k { run_done = true; started = true; running = true; consumers = suc k.consumers }

-- `firstErr` after both closes.
abbrev pub first_error : Option Error → Option Error → Option Error
first_error (some e) reader = some e
first_error none reader = reader

-- The consumer ends when its context has ended, and closes `done`.
unfoldable pub end_consumer : KafkaBus → KafkaBus
end_consumer k = if k.canceled then record k { running = false } else k

-- `cancel()`, which is set once the consumer has been started.
abbrev pub cancel_consumer : KafkaBus → KafkaBus
cancel_consumer k = if k.started then record k { canceled = true } else k

-- The wait for `done`: what holds once the consumer has ended.
unfoldable pub await_done : KafkaBus → KafkaBus
unfolding end_consumer
await_done k = if k.started then end_consumer k else k

-- `Close`, with what the writer and the reader return when they are closed.
unfoldable pub close : Option Error → Option Error → KafkaBus → Option Error × KafkaBus
unfolding await_done
close writer reader k =
    if k.close_done
    then (k.close_err, k)
    else let e = first_error writer reader in
      let stopping = cancel_consumer (record k { closed = true }) in
      let shut_down = record stopping {
        writer_closes = suc stopping.writer_closes;
        reader_closes = suc stopping.reader_closes;
      } in
      (e, record (await_done shut_down) { close_done = true; close_err = e })

-- The error of `Publish` on a closed bus.
abbrev pub bus_closed : Error
bus_closed = Error.message 1

-- `Publish`, with what `WriteMessages` returns; an event is written if that is no error.
unfoldable pub publish : Option Error → ChatEvent → KafkaBus → Result (Unit {0}) × KafkaBus
publish failure e k =
    if k.closed
    then (err bus_closed, k)
    else elim failure [ some x ↦ (err x, k) | none ↦ (ok tt, record k { written = e ∷ k.written }) ]

pub record KafkaConfig : Type 0 where
  pub brokers : List Text
  pub topic : Text
  pub group_id : Text

-- `brokers` or `topic` are empty.
abbrev pub empty_config : Error
empty_config = Error.message 2

-- The group of an instance, with what `os.Hostname` returns.
abbrev pub host_group : Option Text → Text
host_group none = codes "blahaj-ws-unknown"
host_group (some []) = codes "blahaj-ws-unknown"
host_group (some (c ∷ host)) = codes "blahaj-ws-" ++ c ∷ host

abbrev pub group_or_host : Text → Option Text → Text
group_or_host [] host = host_group host
group_or_host (c ∷ group) host = c ∷ group

-- The checks of `NewKafka`, and the group that its reader joins.
unfoldable pub accept_config : Option Text → KafkaConfig → Result Text
accept_config host c =
    if length c.brokers == 0 || length c.topic == 0
    then err empty_config
    else ok (group_or_host c.group_id host)

-- `InitKafka`: the group of the reader, and the bus with its consumer.
unfoldable pub init_kafka : Option Text → KafkaConfig → Result (Text × KafkaBus)
init_kafka host c = elim (accept_config host c) [
  | err e ↦ err e
  | ok group ↦ ok (group, run new_kafka)
]
