-- ===== src/Bus/Lifecycle.antt =====
-- `Run`, `Close` and `Publish` of kafka.go in any order.
use blahaj_chat_server.Common.{
  ◌≤◌, ◌≡◌, refl, sym, ap, ◌≢◌, false, none, some, Text, length, true, ◌||◌, Option, List, [], ◌∷◌,
  ◌==◌, ◌∙◌, not, arith,
}
use blahaj_chat_server.Errors.{Error, ok}
use blahaj_chat_server.Bus.{
  ChatEvent, KafkaBus, KafkaConfig, new_kafka, run, await_done, end_consumer, close, publish,
  group_or_host, accept_config, init_kafka,
}

-- One call of a method, with what the connections return; or the context that `Run` was given ends, and
-- the consumer with it.
pub data Call : Type 0 where
  running : Call
  closing : Option Error → Option Error → Call
  publishing : Option Error → ChatEvent → Call
  parent_ending : Call

abbrev pub call : Call → KafkaBus → KafkaBus
call Call.running k = run k
call (Call.closing writer reader) k = (close writer reader k).1
call (Call.publishing failure e) k = (publish failure e k).1
call Call.parent_ending k = record k { running = false }

abbrev pub calls : List Call → KafkaBus → KafkaBus
calls [] k = k
calls (c ∷ cs) k = calls cs (call c k)

-- What holds of a bus at any time: one consumer at most, its writer and reader closed together and at
-- most once, and the consumer told to stop and at its end when they are.
pub record IsSound (k : KafkaBus) : Type 0 where
  pub one_consumer : k.consumers ≤ 1
  pub runs_counted : (k.run_done || k.consumers == 0) ≡ true
  pub closed_once : k.writer_closes ≤ 1
  pub closed_together : k.reader_closes ≡ k.writer_closes
  pub flags_agree : k.closed ≡ k.close_done
  pub closes_counted : (k.close_done || k.writer_closes == 0) ≡ true
  pub stopped : (not k.closed || k.canceled || k.consumers == 0) ≡ true
  pub ended : (not k.closed || not k.running) ≡ true
  pub started_running : (k.started || not k.running) ≡ true
  pub started_counted : (k.started || k.consumers == 0) ≡ true

call-IsSound : (c : Call) (k : KafkaBus) → IsSound k → IsSound (call c k)
unfolding run close await_done end_consumer publish
call-IsSound Call.running k h = record {
  one_consumer = ground (arith, h.one_consumer, h.runs_counted);
  runs_counted = ground (arith, h.runs_counted);
  closed_once = ground (arith, h.closed_once);
  closed_together = ground (arith, h.closed_together);
  flags_agree = ground (arith, h.flags_agree);
  closes_counted = ground (arith, h.closes_counted);
  stopped = ground (arith, h.stopped);
  ended = ground (arith, h.ended, h.flags_agree, h.started_running);
  started_running = ground (arith, h.started_running);
  started_counted = ground (arith, h.started_counted);
}
call-IsSound (Call.closing writer reader) k h = record {
  one_consumer = ground (arith, h.one_consumer);
  runs_counted = ground (arith, h.runs_counted);
  closed_once = ground (arith, h.closed_once, h.closes_counted);
  closed_together = ground (arith, h.closed_together);
  flags_agree = ground (arith, h.flags_agree);
  closes_counted = ground (arith, h.closes_counted);
  stopped = ground (arith, h.stopped, h.started_counted);
  ended = ground (arith, h.ended, h.flags_agree, h.started_running);
  started_running = ground (arith, h.started_running);
  started_counted = ground (arith, h.started_counted);
}
call-IsSound (Call.publishing failure e) k h = record {
  one_consumer = ground (arith, h.one_consumer);
  runs_counted = ground (arith, h.runs_counted);
  closed_once = ground (arith, h.closed_once);
  closed_together = ground (arith, h.closed_together);
  flags_agree = ground (arith, h.flags_agree);
  closes_counted = ground (arith, h.closes_counted);
  stopped = ground (arith, h.stopped);
  ended = ground (arith, h.ended, h.flags_agree, h.started_running);
  started_running = ground (arith, h.started_running);
  started_counted = ground (arith, h.started_counted);
}
call-IsSound Call.parent_ending k h = record {
  one_consumer = h.one_consumer;
  runs_counted = h.runs_counted;
  closed_once = h.closed_once;
  closed_together = h.closed_together;
  flags_agree = h.flags_agree;
  closes_counted = h.closes_counted;
  stopped = h.stopped;
  ended = ground arith;
  started_running = ground arith;
  started_counted = h.started_counted;
}

calls-keep : (cs : List Call) (k : KafkaBus) → IsSound k → IsSound (calls cs k)
calls-keep [] k h = h
calls-keep (c ∷ cs) k h = calls-keep cs (call c k) (call-IsSound c k h)

-- Whatever is called in whatever order on a new bus, one call after the other: at most one consumer is
-- started, the connections are closed together and at most once, and after a `Close` the consumer, if one
-- was started, has been canceled and its goroutine has ended.
pub calls-IsSound : (cs : List Call) → IsSound (calls cs new_kafka)
calls-IsSound cs = calls-keep cs new_kafka (record {
  one_consumer = omega arith;
  runs_counted = refl;
  closed_once = omega arith;
  closed_together = refl;
  flags_agree = refl;
  closes_counted = refl;
  stopped = refl;
  ended = refl;
  started_running = refl;
  started_counted = refl;
})

call-closed : (c : Call) (k : KafkaBus) → k.closed ≡ true → (call c k).closed ≡ true
unfolding run close await_done end_consumer publish
call-closed Call.running k h = ground arith
call-closed (Call.closing writer reader) k h = ground arith
call-closed (Call.publishing failure e) k h = ground arith
call-closed Call.parent_ending k h = h

call-written : (c : Call) (k : KafkaBus) → k.closed ≡ true → (call c k).written ≡ k.written
unfolding run close await_done end_consumer publish
call-written Call.running k h = ground arith
call-written (Call.closing writer reader) k h = ground arith
call-written (Call.publishing failure e) k h = ground arith
call-written Call.parent_ending k h = refl

-- A bus that has been closed stays closed, and nothing is written to it any more.
pub calls-closed :
    (cs : List Call) (k : KafkaBus)
    → k.closed ≡ true
    → ((calls cs k).closed ≡ true) × ((calls cs k).written ≡ k.written)
calls-closed [] k h = (h, refl)
calls-closed (c ∷ cs) k h =
    let (closed, same) = calls-closed cs (call c k) (call-closed c k h) in
    (closed, same ∙ call-written c k h)

group_or_host-ne : (group : Text) (host : Option Text) → group_or_host group host ≢ []
group_or_host-ne [] none e = cc
group_or_host-ne [] (some []) e = cc
group_or_host-ne [] (some (c ∷ host)) e = cc
group_or_host-ne (c ∷ group) host e = cc

-- A bus that `InitKafka` returns has one consumer and is open, its reader is in a group with a name, and
-- the configuration names a broker and a topic.
init_kafka-ok :
    (host : Option Text) (c : KafkaConfig) {group : Text} {k : KafkaBus}
    → init_kafka host c ≡ ok (group, k)
    → (k.consumers ≡ 1) × (k.closed ≡ false) × (group ≢ []) × (c.brokers ≢ []) × (c.topic ≢ [])
unfolding init_kafka accept_config run
init_kafka-ok host c {group} {k} h =
    let same : group ≡ group_or_host c.group_id host = ground arith in
    (
      ground arith,
      ground arith,
      (λ e. group_or_host-ne c.group_id host (sym same ∙ e)),
      (λ e. let n = ap length e in absurd (ground (arith, n))),
      (λ e. let n = ap length e in absurd (ground (arith, n))),
    )
