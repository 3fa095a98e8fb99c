-- ===== src/Config.antt =====
-- configs/redis_config.py and configs/kafka_config.py: the settings that the engines read.
pub mod Env
mod Tests
use rtace.Base.{ℕ, ◌<◌, String}

module _ (F : Type 0) where
  pub record RedisConfig : Type 0 where
    pub host : String
    pub port : ℕ
    pub db : ℕ
    pub replay_ttl_hours : ℕ
    pub quarantine_ttl_seconds : ℕ
    pub session_ttl_days : ℕ
    pub geo_max_velocity_kmh : F
    pub burst_window_seconds : ℕ
    pub burst_threshold : ℕ
    pub burst_key_ttl_seconds : ℕ
    pub auth_fail_window_seconds : ℕ
    pub auth_fail_user_threshold : ℕ
    pub auth_fail_ip_threshold : ℕ
    pub auth_fail_key_ttl_seconds : ℕ
    pub ip_block_ttl_seconds : ℕ
    pub step_up_ttl_seconds : ℕ
    pub containment_receipt_ttl_seconds : ℕ
    pub detection_cooldown_seconds : ℕ

  -- Redis refuses an expiry of zero seconds: the settings that become one are positive.
  pub record IsPositive (c : RedisConfig) : Type 0 where
    pub replay : 0 < c.replay_ttl_hours
    pub quarantine : 0 < c.quarantine_ttl_seconds
    pub session : 0 < c.session_ttl_days
    pub burst_key : 0 < c.burst_key_ttl_seconds
    pub auth_fail_key : 0 < c.auth_fail_key_ttl_seconds
    pub ip_block : 0 < c.ip_block_ttl_seconds
    pub step_up : 0 < c.step_up_ttl_seconds
    pub receipt : 0 < c.containment_receipt_ttl_seconds

-- The defaults of `from_env`, over the double that stands for 900.
abbrev pub default_config : {F : Type 0} → F → RedisConfig F
default_config nine_hundred = record {
  host = "localhost";
  port = 6379;
  db = 0;
  replay_ttl_hours = 24;
  quarantine_ttl_seconds = 3600;
  session_ttl_days = 7;
  geo_max_velocity_kmh = nine_hundred;
  burst_window_seconds = 60;
  burst_threshold = 20;
  burst_key_ttl_seconds = 120;
  auth_fail_window_seconds = 60;
  auth_fail_user_threshold = 10;
  auth_fail_ip_threshold = 50;
  auth_fail_key_ttl_seconds = 120;
  ip_block_ttl_seconds = 3600;
  step_up_ttl_seconds = 900;
  containment_receipt_ttl_seconds = 691200;
  detection_cooldown_seconds = 60;
}

pub record KafkaConfig : Type 0 where
  pub bootstrap_servers : String
  pub tx_events_topic : String
  pub auth_events_topic : String
  pub detections_topic : String
  pub audit_log_topic : String
  pub dlq_topic : String
  pub fetch_min_bytes : ℕ
  pub fetch_max_wait_ms : ℕ
  pub max_poll_records : ℕ
  pub poll_timeout_ms : ℕ

abbrev pub default_kafka_config : KafkaConfig
default_kafka_config = record {
  bootstrap_servers = "localhost:9092";
  tx_events_topic = "tx-events";
  auth_events_topic = "auth-events";
  detections_topic = "detections";
  audit_log_topic = "audit-log";
  dlq_topic = "rtace-dlq";
  fetch_min_bytes = 1;
  fetch_max_wait_ms = 100;
  max_poll_records = 500;
  poll_timeout_ms = 1000;
}
