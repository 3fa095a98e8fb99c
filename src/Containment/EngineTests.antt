-- ===== src/Containment/EngineTests.antt =====
-- The containment engine on a detection that another client contends for, and on a record that is
-- none.
use rtace.Base.{ℕ, ◌≡◌, append, String, refl, true, false, Option, none, some, List, [], ◌∷◌, All}
use rtace.Platform.{Json, text}
use rtace.Platform.Sample.{sample}
use rtace.Config.{default_kafka_config}
use rtace.Models.{DetectionEvent}
use rtace.Kafka.{Producer, acknowledged}
use rtace.ConsumerLoop.{connection_error, Decoded, Engine}
use rtace.ConsumerLoop.Run.{Pass, batch}
use rtace.ConsumerLoop.Commits.{Offsets}
use rtace.ConsumerLoop.Classified.{In}
use rtace.Containment.Atomic.{atomic, Watched}
use rtace.Containment.Pipeline.{Audit}
use rtace.Containment.Tests.{server, config, anomaly, empty}
use rtace.Containment.Engine.{
  Contention, runs, rounds_of, Engaging, error_one, after_one, messages_one,
}
use rtace.Containment.Contained.{
  called, Done, handle_one_contains, run_containment_engine, Confirmed, Finished,
  audits_before_commits,
}

abbrev parse : Json ℕ → Option (DetectionEvent sample)
parse (text s) = some (anomaly s)
parse _ = none

abbrev of_audit : Audit ℕ → String
of_audit audit = audit.user_id

-- another client delivers an anomaly of the same user during the first pass, whose EXEC is refused
abbrev contended : Contention sample server config
contended = record {
  refused = (λ db. (atomic sample server config (anomaly "d0") db).1) ∷ [];
  last = λ db. db;
  verdict = runs;
  error = connection_error;
}

abbrev world : Engaging sample server config default_kafka_config parse String of_audit
world = record { db = empty; counts = []; contentions = contended ∷ [] }

abbrev rec : Decoded ℕ
rec = record { topic = "detections"; partition = 0; offset = 3; value = text "d1" }

watched :
    Watched sample server config (rounds_of sample server config contended) (anomaly "d1") empty
watched = ((λ ne. absurd (ne refl)), ((λ ne. (refl, refl)), tt))

handle_one_contains_example :
    Done sample server config default_kafka_config parse String of_audit rec world
      (anomaly "d1")
      (called sample server config default_kafka_config parse String of_audit rec world
        (anomaly "d1")).0
      (after_one sample server config default_kafka_config parse String of_audit rec world).db
      (error_one sample server config default_kafka_config parse String of_audit rec world)
      (messages_one sample server config default_kafka_config parse String of_audit rec world)
handle_one_contains_example =
    handle_one_contains sample server config default_kafka_config parse String of_audit rec world
      (anomaly "d1") refl watched

abbrev producer : Producer String
producer = record {
  fates = λ n. acknowledged;
  sends = 0;
  buffered = [];
  delivered = [];
  last_error = none;
  send_failures = [];
}

abbrev engine :
    Engine ℕ String (Engaging sample server config default_kafka_config parse String of_audit)
engine = record { producer = producer; world = world; counts = []; sleeps = []; commits = [] }

-- a batch, and the shutdown
abbrev passes : List Pass
passes =
    record {
      is_set = false;
      polled = batch (
          record {
            topic = "detections";
            partition = 0;
            offset = 3;
            key = none;
            value = some (1 ∷ []);
          }
          ∷ []);
      waits = record { before_sleep = false; after_sleep = false } ∷ [];
      commit_succeeds = true;
      resolved = 1;
    }
    ∷ record { is_set = true; polled = batch []; waits = []; commit_succeeds = true; resolved = 1 }
    ∷ []

audits_before_commits_example :
    (cs : List Offsets) × ((run_containment_engine sample server config default_kafka_config parse
        String of_audit
        (λ bytes. some (text "d1"))
        (λ d. d.stage)
        (λ k. "k")
        1
        30
        1
        passes
        engine).1.commits
      ≡ append engine.commits cs)
    × All
        (Confirmed sample server config default_kafka_config parse String of_audit
          (λ bytes. some (text "d1"))
          (λ d. d.stage)
          (λ k. "k")
          1
          30
          1
          passes
          engine)
        cs
    × ((c : Offsets)
        → Finished sample server config default_kafka_config parse String of_audit
            (λ bytes. some (text "d1"))
            (λ d. d.stage)
            (λ k. "k")
            1
            30
            1
            passes
            engine
            c
        → In c cs)
audits_before_commits_example =
    audits_before_commits sample server config default_kafka_config parse String of_audit
      (λ bytes. some (text "d1")) (λ d. d.stage) (λ k. "k") 1 30 1 passes engine
