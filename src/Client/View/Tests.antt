-- ===== src/Client/View/Tests.antt =====
-- A client that connects, and the theorems on it.
use paho_cpp_static.Error.{ok, would_block}
use paho_cpp_static.Packet.{at_least_once, ConnectOptions, at_most_once}
use paho_cpp_static.Prelude.{[], false, List, ℕ, ◌≡◌, arith, ◌∷◌, length, ◌+◌, true}
use paho_cpp_static.Config.{default_config}
use paho_cpp_static.Client.View.Reach.{perform, Reached, constructed, after, calls}
use paho_cpp_static.Client.View.Bounded.{IsBounded, Reached-IsBounded}
use paho_cpp_static.Client.View.Distinct.{IsDistinct, Reached-IsDistinct}
use paho_cpp_static.Client.View.Drained.{drain_rx_enough}
use paho_cpp_static.Client.Drain.{drain_loop, drain_rx}
use paho_cpp_static.Codec.Stream.{list_stream}
use paho_cpp_static.Client.View.{view, List, ℕ, length}
use paho_cpp_static.Client.State.{
  Setup, Handlers, Env, Sys, new_client, finish, call, basic, publishes, connects, awaiting_connack,
}

-- A transport without a word from the broker, and a clock that stands still.
abbrev quiet : Env
quiet = record {
  World = ℕ;
  now_ms = λ w. (0, w);
  open_transport = λ w. (ok, w);
  send = λ bytes w. (ok, length bytes, w + length bytes);
  recv = λ room w. (would_block, [], w);
  close = λ w. w;
  now_ms_u32 = λ w. omega arith;
  send_partial = λ bytes w. omega arith;
  recv_partial = λ room w. omega arith;
}

abbrev greeting : List ℕ
greeting = 0x61 ∷ []

-- Handlers that publish when the session begins, and connect when it ends.
abbrev busy : Handlers
busy = record {
  on_subscription = λ h m. finish;
  on_message = λ m. finish;
  on_connect =
      λ info. call (basic (publishes greeting greeting at_least_once false)) (λ e c. finish);
  on_disconnect = λ e. finish;
  on_delivery = λ id. finish;
  on_suback = λ id codes. finish;
}

abbrev setup : Setup
setup = record { streams = list_stream; env = quiet; cfg = default_config; handlers = busy }

abbrev options : ConnectOptions
options = record {
  client_id = greeting;
  username = [];
  password = [];
  will = record { topic = []; payload = []; qos = at_most_once; retain = false };
  keep_alive_s = 60;
  clean_session = true;
}

abbrev new : Sys ℕ
new = record { client = new_client default_config; world = 0 }

-- After a connect().
abbrev later : Sys ℕ
later = (perform setup 1 (basic (connects options)) new).1

later-Reached : Reached setup (busy, later)
later-Reached = after (constructed 0) (calls 1 (basic (connects options)) busy new)

Reached-IsBounded_example : IsBounded default_config (view later.client)
Reached-IsBounded_example = Reached-IsBounded setup (busy, later) later-Reached

Reached-IsDistinct_example : IsDistinct default_config (view later.client)
Reached-IsDistinct_example = Reached-IsDistinct setup (busy, later) later-Reached

-- A CONNACK that has come, before it is read.
unfoldable answered : Sys ℕ
unfolding new_client
answered = record {
  client = record (new_client default_config) {
    rx = 0x20 ∷ 2 ∷ 0 ∷ 0 ∷ [];
    state = awaiting_connack;
  };
  world = 0;
}

drain_rx_enough_example : drain_loop setup 1 9 answered ≡ drain_rx setup 1 answered
unfolding answered new_client
drain_rx_enough_example =
    drain_rx_enough setup 1 9 answered (omega arith) (omega arith) (omega arith)
