-- ===== src/Ports/Tls/Library.antt =====
-- The calls of mbedTLS, which are not part of the repository: on a state that holds the contexts of
-- a transport and the network, with the codes and the behaviour that mbedTLS documents.
use paho_cpp_static.Prelude.{ℕ, List, ◌≡◌, ◌≤◌, length, Bool}
use paho_cpp_static.Ports.Sockets.{Answer, done}

-- A call that returns a code only says whether it is 0; of one that returns a count or a negative
-- code, the code is what `failed` holds. `verified` says whether the verification result is 0. The
-- calls that take no option here have those of the source: TCP, a client over a stream with the
-- default preset, required verification.
pub record Mbedtls : Type 1 where
  pub World : Type 0
  pub want_read : ℕ
  pub want_write : ℕ
  pub peer_close_notify : ℕ
  pub net_init : World → World
  pub ssl_init : World → World
  pub config_init : World → World
  pub crt_init : World → World
  pub drbg_init : World → World
  pub entropy_init : World → World
  pub entropy_free : World → World
  pub drbg_free : World → World
  pub crt_free : World → World
  pub config_free : World → World
  pub ssl_free : World → World
  pub net_free : World → World
  pub drbg_seed : List ℕ → World → Bool × World
  pub crt_parse : List ℕ → World → Bool × World
  pub net_connect : List ℕ → List ℕ → World → Bool × World
  pub net_set_nonblock : World → Bool × World
  pub config_defaults : World → Bool × World
  pub conf_authmode : World → World
  pub conf_ca_chain : World → World
  pub conf_rng : World → World
  pub ssl_setup : World → Bool × World
  pub set_hostname : List ℕ → World → Bool × World
  pub set_bio : World → World
  pub handshake : World → Answer (Unit {0}) × World
  pub verified : World → Bool
  pub write : List ℕ → World → Answer ℕ × World
  pub read : ℕ → World → Answer (List ℕ) × World
  pub close_notify : World → World
  pub net_free_twice : (w : World) → net_free (net_free w) ≡ net_free w
  pub write_partial :
      (n : ℕ) (bytes : List ℕ) (w : World) → (write bytes w).0 ≡ done n → n ≤ length bytes
  pub read_partial :
      (room : ℕ) (bytes : List ℕ) (w : World) → (read room w).0 ≡ done bytes → length bytes ≤ room
