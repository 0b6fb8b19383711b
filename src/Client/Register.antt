-- ===== src/Client/Register.antt =====
-- The member functions that set a callback. The callbacks that subscriptions name are fixed: they
-- come with subscribe().
use paho_cpp_static.Packet.{Message, ConnackInfo}
use paho_cpp_static.Error.{Error}
use paho_cpp_static.Prelude.{ℕ, List}
use paho_cpp_static.Client.State.{Handlers, Program, Call, AnyCall}

pub data Registration : Type 0 where
  for_message : (Message → Program Call) → Registration
  for_connect : (ConnackInfo → Program AnyCall) → Registration
  for_disconnect : (Error → Program AnyCall) → Registration
  for_delivery : (ℕ → Program AnyCall) → Registration
  for_suback : (ℕ → List ℕ → Program AnyCall) → Registration

unfoldable pub register : Registration → Handlers → Handlers
register (for_message h) hs = record hs { on_message = h }
register (for_connect h) hs = record hs { on_connect = h }
register (for_disconnect h) hs = record hs { on_disconnect = h }
register (for_delivery h) hs = record hs { on_delivery = h }
register (for_suback h) hs = record hs { on_suback = h }
