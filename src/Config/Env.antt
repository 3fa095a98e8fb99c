-- ===== src/Config/Env.antt =====
-- configs/redis_config.py and configs/kafka_config.py: `from_env`. The environment, and `int` and
-- `float` of a text, are arguments. A negative number starts the process, with settings that the
-- other parts do not model; it is an outcome of its own here.
use rtace.Base.{ℕ, String, Option, none, some}
use rtace.Config.{RedisConfig, KafkaConfig}

-- What `int` makes of a text: a number, a negative one, or a ValueError.
pub data Reading : Type 0 where
  natural : ℕ → Reading
  negative no_number : Reading

-- A configuration; the ValueError of a variable; or a process that starts with a negative number for
-- this variable.
pub data Loaded {ℓ} (A : Type ℓ) : Type ℓ where
  loaded : A → Loaded A
  value_error : String → Loaded A
  starts_with_negative : String → Loaded A

infixl 5 ◌>>=◌
abbrev pub ◌>>=◌ {ℓ κ} : {A : Type ℓ} {B : Type κ} → Loaded A → (A → Loaded B) → Loaded B
loaded a >>= f = f a
value_error name >>= f = value_error name
starts_with_negative name >>= f = starts_with_negative name

abbrev pub number : String → Reading → Loaded ℕ
number name (natural n) = loaded n
number name negative = starts_with_negative name
number name no_number = value_error name

abbrev pub parsed : {A : Type 0} → String → Option A → Loaded A
parsed name none = value_error name
parsed name (some a) = loaded a

module _ (F : Type 0) (getenv : String → Option String) (int : String → Reading)
    (float : String → Option F) where
  -- `os.getenv(name, default)`
  unfoldable pub get : String → String → String
  get name default = elim (getenv name) [ none ↦ default | some text ↦ text ]

  unfoldable pub read_int : String → String → Loaded ℕ
  read_int name default = number name (int (get name default))

  unfoldable pub read_float : String → String → Loaded F
  read_float name default = parsed name (float (get name default))

  -- `RedisConfig.from_env()`
  unfoldable pub redis_from_env : Loaded (RedisConfig F)
  redis_from_env = do
    port ← read_int "REDIS_PORT" "6379"
    db ← read_int "REDIS_DB" "0"
    replay_ttl_hours ← read_int "REDIS_REPLAY_TTL_HOURS" "24"
    quarantine_ttl_seconds ← read_int "REDIS_QUARANTINE_TTL_SECONDS" "3600"
    session_ttl_days ← read_int "REDIS_SESSION_TTL_DAYS" "7"
    geo_max_velocity_kmh ← read_float "GEO_MAX_VELOCITY_KMH" "900"
    burst_window_seconds ← read_int "REDIS_BURST_WINDOW_SECONDS" "60"
    burst_threshold ← read_int "REDIS_BURST_THRESHOLD" "20"
    burst_key_ttl_seconds ← read_int "REDIS_BURST_KEY_TTL_SECONDS" "120"
    auth_fail_window_seconds ← read_int "REDIS_AUTH_FAIL_WINDOW_SECONDS" "60"
    auth_fail_user_threshold ← read_int "REDIS_AUTH_FAIL_USER_THRESHOLD" "10"
    auth_fail_ip_threshold ← read_int "REDIS_AUTH_FAIL_IP_THRESHOLD" "50"
    auth_fail_key_ttl_seconds ← read_int "REDIS_AUTH_FAIL_KEY_TTL_SECONDS" "120"
    ip_block_ttl_seconds ← read_int "REDIS_IP_BLOCK_TTL_SECONDS" "3600"
    step_up_ttl_seconds ← read_int "REDIS_STEP_UP_TTL_SECONDS" "900"
    containment_receipt_ttl_seconds ← read_int "REDIS_CONTAINMENT_RECEIPT_TTL_SECONDS" "691200"
    detection_cooldown_seconds ← read_int "DETECTION_COOLDOWN_SECONDS" "60"
    loaded (record {
      host = get "REDIS_HOST" "localhost";
      port = port;
      db = db;
      replay_ttl_hours = replay_ttl_hours;
      quarantine_ttl_seconds = quarantine_ttl_seconds;
      session_ttl_days = session_ttl_days;
      geo_max_velocity_kmh = geo_max_velocity_kmh;
      burst_window_seconds = burst_window_seconds;
      burst_threshold = burst_threshold;
      burst_key_ttl_seconds = burst_key_ttl_seconds;
      auth_fail_window_seconds = auth_fail_window_seconds;
      auth_fail_user_threshold = auth_fail_user_threshold;
      auth_fail_ip_threshold = auth_fail_ip_threshold;
      auth_fail_key_ttl_seconds = auth_fail_key_ttl_seconds;
      ip_block_ttl_seconds = ip_block_ttl_seconds;
      step_up_ttl_seconds = step_up_ttl_seconds;
      containment_receipt_ttl_seconds = containment_receipt_ttl_seconds;
      detection_cooldown_seconds = detection_cooldown_seconds;
    })

  -- `KafkaConfig.from_env()`
  unfoldable pub kafka_from_env : Loaded KafkaConfig
  kafka_from_env = do
    fetch_min_bytes ← read_int "KAFKA_FETCH_MIN_BYTES" "1"
    fetch_max_wait_ms ← read_int "KAFKA_FETCH_MAX_WAIT_MS" "100"
    max_poll_records ← read_int "KAFKA_MAX_POLL_RECORDS" "500"
    poll_timeout_ms ← read_int "KAFKA_POLL_TIMEOUT_MS" "1000"
    loaded (record {
      bootstrap_servers = get "KAFKA_BOOTSTRAP_SERVERS" "localhost:9092";
      tx_events_topic = get "KAFKA_TX_EVENTS_TOPIC" "tx-events";
      auth_events_topic = get "KAFKA_AUTH_EVENTS_TOPIC" "auth-events";
      detections_topic = get "KAFKA_DETECTIONS_TOPIC" "detections";
      audit_log_topic = get "KAFKA_AUDIT_LOG_TOPIC" "audit-log";
      dlq_topic = get "KAFKA_DLQ_TOPIC" "rtace-dlq";
      fetch_min_bytes = fetch_min_bytes;
      fetch_max_wait_ms = fetch_max_wait_ms;
      max_poll_records = max_poll_records;
      poll_timeout_ms = poll_timeout_ms;
    })
