-- ===== src/Monitor.antt =====
-- security_monitor.py, the metrics of a peer, and relay_monitor.py, those of the relay.
pub mod Latency
pub mod Spoofing
use onyx_p2p_auction_system.Base.{
  ℕ, suc, ◌+◌, String, Bool, true, false, not, ◌&&◌, Option, none, some, List, [], ◌∷◌, ◌++◌,
  length, ltb, str_eq, if◌then◌else◌,
}
use onyx_p2p_auction_system.Base.Dict
use onyx_p2p_auction_system.Base.Dict.{Dict}
use onyx_p2p_auction_system.Ca.{text_instance}

-- the event types that are counted, and any other one
pub data EventType : Type 0 where
  invalid_signature timestamp_invalid decryption_error : EventType
  token_reuse_detected ledger_divergence other_event : EventType

-- `metrics`; a latency is of any type
pub record Metrics (A : Type 0) : Type 0 where
  pub validation_fail_rate : ℕ
  pub block_hash_mismatch : ℕ
  pub token_reuse_rate : ℕ
  pub msg_processing_latency : List A

module _ {A : Type 0} where
  -- the metrics of `log_security_event`
  pub log_security_event : EventType → Bool → Metrics A → Metrics A
  log_security_event event_type false metrics = metrics
  log_security_event token_reuse_detected true metrics = record metrics {
    token_reuse_rate = metrics.token_reuse_rate + 1;
  }
  log_security_event ledger_divergence true metrics = record metrics {
    block_hash_mismatch = metrics.block_hash_mismatch + 1;
  }
  log_security_event other_event true metrics = metrics
  log_security_event _ true metrics = record metrics {
    validation_fail_rate = metrics.validation_fail_rate + 1;
  }

  -- `pop(0)` of a list that is not empty
  without_first : List A → List A
  without_first [] = []
  without_first (x ∷ rest) = rest

  unfoldable pub record_latency : A → Metrics A → Metrics A
  unfolding without_first
  record_latency latency_ms metrics =
      let grown = metrics.msg_processing_latency ++ latency_ms ∷ [] in
      record metrics {
        msg_processing_latency = if ltb 100 (length grown) then without_first grown else grown;
      }

-- What the relay's monitor logs.
pub data Alert : Type 0 where
  connection_spike : String → ℕ → Alert
  uuid_collision : String → String → Alert
  msg_rate_per_peer : String → ℕ → Alert
  metric_report : ℕ → ℕ → Alert

pub record RelayMonitor : Type 0 where
  pub msg_count_global : ℕ
  pub conn_count_global : ℕ
  pub msg_count_per_peer : Dict String ℕ
  pub conn_attempts_per_ip : Dict String ℕ
  -- a set: no uuid is entered twice
  pub active_uuids : List String
  pub log : List Alert

abbrev pub new_monitor : RelayMonitor
new_monitor = record {
  msg_count_global = 0;
  conn_count_global = 0;
  msg_count_per_peer = [];
  conn_attempts_per_ip = [];
  active_uuids = [];
  log = [];
}

-- `defaultdict(int)[key]`
count_of : String → Dict String ℕ → ℕ
count_of key d = elim (Dict.lookup key d) [ none ↦ 0 | some n ↦ n ]

unfoldable pub log_connection : String → RelayMonitor → RelayMonitor
unfolding count_of
log_connection ip monitor =
    let attempts = count_of ip monitor.conn_attempts_per_ip + 1 in
    record monitor {
      conn_count_global = monitor.conn_count_global + 1;
      conn_attempts_per_ip = Dict.insert ip attempts monitor.conn_attempts_per_ip;
      log =
          if ltb 10 attempts then monitor.log ++ connection_spike ip attempts ∷ [] else monitor.log;
    }

unfoldable pub is_active : String → List String → Bool
is_active uuid [] = false
is_active uuid (first ∷ rest) = if str_eq first uuid then true else is_active uuid rest

unfoldable pub register_uuid : String → String → RelayMonitor → RelayMonitor
unfolding is_active
register_uuid uuid ip monitor =
    if is_active uuid monitor.active_uuids
    then (if str_eq uuid "NA"
        then monitor
        else record monitor { log = monitor.log ++ uuid_collision uuid ip ∷ [] })
    else record monitor { active_uuids = uuid ∷ monitor.active_uuids }

inactive : String → List String → List String
inactive uuid [] = []
inactive uuid (first ∷ rest) =
    let others = inactive uuid rest in if str_eq first uuid then others else first ∷ others

unfoldable pub remove_uuid : String → RelayMonitor → RelayMonitor
unfolding inactive
remove_uuid uuid monitor = record monitor { active_uuids = inactive uuid monitor.active_uuids }

unfoldable pub log_message : String → RelayMonitor → RelayMonitor
unfolding count_of
log_message uuid monitor =
    let rate = count_of uuid monitor.msg_count_per_peer + 1 in
    record monitor {
      msg_count_global = monitor.msg_count_global + 1;
      msg_count_per_peer = Dict.insert uuid rate monitor.msg_count_per_peer;
      log = if ltb 20 rate then monitor.log ++ msg_rate_per_peer uuid rate ∷ [] else monitor.log;
    }

-- one round of `_report_metrics`
pub report_metrics : RelayMonitor → RelayMonitor
report_metrics monitor = record monitor {
  msg_count_global = 0;
  conn_count_global = 0;
  msg_count_per_peer = [];
  conn_attempts_per_ip = [];
  log = monitor.log ++ metric_report monitor.msg_count_global monitor.conn_count_global ∷ [];
}
