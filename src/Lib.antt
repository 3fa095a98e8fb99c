-- ===== src/Lib.antt =====
-- RTACE: transactions and logins come in over Kafka, detectors find anomalies, and containment
-- puts users under quarantine, asks for step-up authentication, or blocks addresses, by keys in
-- Redis.
--
-- The program's parts and their files. The detection engine reads tx-events and auth-events in
-- batches: detection_engine/pipeline.py refuses the events that a rule is against, runs a Lua
-- script for each of the others, turns the results into detections, gives them stable ids, and
-- sends those that are not on cooldown to the topic detections. The containment engine reads
-- detections one by one, writes the rules, and audits what it did. Both run in the loop of
-- common/consumer_loop.py, which retries, dead-letters and commits. The control API overrides
-- rules by hand. The simulator makes the traffic.
--
-- Containment: containment_engine/containment_actions.py; `plan` is `_plan`, `apply_containment`
-- keeps its name, `attempt` is one pass of its `while True`, `commit` what EXEC runs.
-- Containment/Atomic states the call as one indivisible step. Containment/Pipeline:
-- containment_engine/pipeline.py. Containment/Engine and Containment/Contained:
-- containment_engine/consumer.py, the records of a batch one by one in the consumer loop.
--
-- Kafka: common/kafka_client.py; a producer with its latch `_rtace_last_error`. ConsumerLoop:
-- common/consumer_loop.py; ConsumerLoop/Retry is `_handle_batch_with_retry` and `_backoff`,
-- ConsumerLoop/Run is `run_consumer_loop` and `_commit`, ConsumerLoop/PerRecord is `per_record`.
-- The other files below ConsumerLoop hold its properties: Durable, Passes, Endings and AtLeastOnce
-- about delivery, Classified and Splitting about where each record goes, Covering and Commits
-- about offsets, and Retried, Backoff and Recovery about the retries.
--
-- Detection: the helpers of detection_engine/pipeline.py; Detection/Batch is `_run` (`enforce`,
-- `check_all`, `candidates_of`, `with_candidates` are its phases) and `handle_batch`;
-- Detection/Gate is the handler in detection_engine/consumer.py, Detection/Faults the same with a
-- Redis error in any pipeline of the batch (its properties are in Detection/Interrupted and
-- Detection/LostReply), and Detection/Engine the handler in the consumer loop. Detectors and its
-- children: detection_engine/*_detector.py. Scripts: lua/tx_check.lua and lua/auth_check.lua.
-- Cooldown: detection_engine/cooldown.py.
--
-- Enforcement: common/enforcement.py, with `list_rules` in Enforcement/Listing. Models:
-- common/models.py. Config: configs/redis_config.py and configs/kafka_config.py, with `from_env`
-- in Config/Env. Api: api/main.py, with its start and its read endpoints in Api/Reads. Simulator:
-- `generate_events` of simulator/transaction_simulator.py, one pass of its `while True` at a time,
-- Simulator/Publish its `run_simulator` and `ask_decision`, and Simulator/Settings its settings.
-- Base, Number, Platform and Redis hold what these share.
--
-- How the state is modelled. A component's state is passed from function to function: the
-- database, the producer, the counters (lists of increments) and the messages. Redis is a record
-- of commands with their documented laws, and Redis/Memory is a server that obeys them; the
-- commands of one Lua script run without interruption, and those of a pipeline in their order.
-- Doubles, times, hashes and JSON texts are fields of Number and Platform, of which
-- Platform/Sample is an instance. What the environment decides is an argument: the fate of each
-- send, what other clients do between a read and EXEC and how EXEC ends (a list of rounds), when
-- the shutdown comes (a list of waits), and what each poll returns (a list of passes). Such a list
-- is as long as the loop runs; there is no other bound, and the theorems on endings say what it
-- means when the list is used up. Exceptions are values; a Redis error is modelled in the four
-- pipelines of a detection batch, with the number of commands that the server had run, and at
-- EXEC. An exception that nothing catches is a 500 of the API, and the end of the simulator's
-- loop. The random generator of the simulator is a record of its draws.
--
-- Not modelled: logging, the texts of metrics and the latency histograms; the creation of clients
-- (common/redis_client.py, create_consumer, create_producer) and the start of the processes; a
-- Redis error in the release of cooldown keys or in a request of the API; the expiry of keys
-- during a batch; the simulator's draw of its users' homes; the validation by pydantic and the
-- texts of the decision service, which are parameters; the Go decision service. The decimal text
-- of a double that Lua reads is taken to be that double, and the fields of a user's session to be
-- numbers.
pub mod Base
pub mod Number
pub mod Platform
pub mod Config
pub mod Models
pub mod Enforcement
pub mod Containment
pub mod Kafka
pub mod ConsumerLoop
pub mod Cooldown
pub mod Redis
pub mod Scripts
pub mod Detectors
pub mod Detection
pub mod Api
pub mod Simulator
