-- ===== src/Config.antt =====
-- include/mqtt/config.hpp: the compile-time constants that a client is built over.
use paho_cpp_static.Prelude.{Bool, ℕ, leb, ◌&&◌, ◌==◌, ◌||◌}
use Prim.Native.Nat.{ℕ}

pub record Config : Type 0 where
  pub rx_buffer_size : ℕ
  pub tx_buffer_size : ℕ
  pub max_topic_len : ℕ
  pub max_client_id_len : ℕ
  pub max_username_len : ℕ
  pub max_password_len : ℕ
  pub max_inflight_out : ℕ
  pub max_persisted_msg_size : ℕ
  pub max_inflight_in : ℕ
  pub max_subscriptions : ℕ
  pub max_pending_acks : ℕ
  pub max_topics_per_request : ℕ
  pub retry_interval_ms : ℕ
  pub connect_timeout_ms : ℕ

-- The static_asserts of ConfigCheck.
unfoldable pub config_check : Config → Bool
config_check c =
    leb 16 c.rx_buffer_size
    && leb 16 c.tx_buffer_size
    && leb 1 c.max_topic_len
    && leb 1 c.max_client_id_len
    && leb 1 c.max_topics_per_request
    && (c.max_inflight_out == 0 || leb 8 c.max_persisted_msg_size)
    && leb c.rx_buffer_size 268435460

unfoldable pub default_config : Config
default_config = record {
  rx_buffer_size = 1024;
  tx_buffer_size = 1024;
  max_topic_len = 64;
  max_client_id_len = 24;
  max_username_len = 32;
  max_password_len = 32;
  max_inflight_out = 4;
  max_persisted_msg_size = 256;
  max_inflight_in = 4;
  max_subscriptions = 8;
  max_pending_acks = 4;
  max_topics_per_request = 4;
  retry_interval_ms = 20000;
  connect_timeout_ms = 30000;
}
