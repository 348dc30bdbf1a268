-- ===== src/Relay/Tests.antt =====
-- Runs of internal/relay/hub.go and internal/protocol/frame.go.
use open_remote_commander.Prelude.{
  ◌≡◌, refl, String, true, false, [], ◌∷◌, arith, none, some, lookup, insert, update_at,
}
use open_remote_commander.Relay.{
  Frame, validate, closed, answered, broken, open_, marked, DeviceConn, Call, waits, holds, pends,
  Hub, new_hub, conn_of, begin_close, offer_all, flush, register, enter, acquire, give_up,
  make_pending, deliver,
}
use open_remote_commander.Relay.Steps.{acquires, here, next, registers, enters}
use open_remote_commander.Relay.Counts.{IsCounted}
use open_remote_commander.Relay.Limit.{in_flight-le-max_in_flight}

abbrev a_frame : String → String → Frame
a_frame type id = record {
  type = type;
  id = id;
  tool = "read_file";
  args = "{}";
  is_ok = false;
  result = "";
  error = none;
}

accepts_call : validate (a_frame "call" "1") ≡ none
unfolding validate
accepts_call = refl

refuses_bare_failure : validate (a_frame "result" "1") ≡ some "failed result requires error"
unfolding validate
refuses_bare_failure = refl

refuses_unknown : validate (a_frame "wat" "") ≡ some "unknown frame type"
unfolding validate
refuses_unknown = refl

-- A hub for one call at a time, with the device "d" of alice.
abbrev with_device : Hub
with_device = register "d" "alice" (new_hub 1)

abbrev with_call : Hub
with_call = (enter "alice" "d" with_device).1

abbrev waiting_call : Call
waiting_call = record { conn = 0; id = ""; chan = none; stage = waits; result = none }

abbrev holding_call : Call
holding_call = record { conn = 0; id = ""; chan = none; stage = holds; result = none }

abbrev a_device : DeviceConn
a_device = record { device_id = "d"; owner = "alice"; in_flight = 0; pending = []; phase = open_ }

abbrev with_place : Hub
with_place = acquire 0 waiting_call with_call

-- Its request "r" is pending, and the device answers it; another frame is dropped.
abbrev with_request : Hub
with_request = make_pending 0 holding_call a_device "r" with_place

abbrev asked_device : DeviceConn
asked_device = record {
  device_id = "d";
  owner = "alice";
  in_flight = 1;
  pending = ("r", 0) ∷ [];
  phase = open_;
}

abbrev a_result : String → Frame
a_result id = record {
  type = "result";
  id = id;
  tool = "";
  args = "";
  is_ok = true;
  result = "7";
  error = none;
}

answers_request :
    (deliver asked_device (a_result "r") with_request).calls
    ≡ record { conn = 0; id = "r"; chan = some (answered "7" none); stage = pends; result = none }
      ∷ []
unfolding deliver make_pending give_up acquire enter register begin_close conn_of new_hub insert
    lookup update_at
answers_request = refl

drops_other : deliver asked_device (a_result "s") with_request ≡ with_request
unfolding deliver make_pending give_up acquire enter register begin_close conn_of new_hub insert
    lookup update_at
drops_other = refl

-- A second connection of the device closes the first.
closes_first :
    (register "d" "alice" with_device).conns
    ≡ record {
      device_id = "d";
      owner = "alice";
      in_flight = 0;
      pending = [];
      phase = marked closed;
    }
      ∷ a_device
      ∷ []
unfolding register begin_close new_hub insert lookup update_at
closes_first = refl

-- The call is answered when the connection is closed.
flushes_call :
    (flush 0 asked_device closed with_request).calls
    ≡ record { conn = 0; id = "r"; chan = some (broken closed); stage = pends; result = none } ∷ []
unfolding flush offer_all make_pending give_up acquire enter register begin_close conn_of new_hub
    insert lookup update_at
flushes_call = refl

in_flight-le-max_in_flight_example : IsCounted with_place
unfolding enter conn_of register begin_close new_hub insert lookup
in_flight-le-max_in_flight_example = in_flight-le-max_in_flight 1 with_place (
    next (next (next here (registers "d" "alice")) (enters "alice" "d"))
      (acquires 0 waiting_call a_device refl refl refl (omega arith)))
