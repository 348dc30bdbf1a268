-- ===== src/Ws/Reading.antt =====
-- `ReadMessage` of internal/ws/ws.go.
use open_remote_commander.Prelude.{
  ℕ, zero, suc, Bool, true, false, ◌||◌, List, [], ◌++◌, Option, none, some, Result, ok, err,
  length, ltb, ◌==◌, if◌then◌else◌,
}
use open_remote_commander.Ws.{
  Conn, Error, Frame, Wire, and_then, closed, eof, protocol, read_frame, too_large, write_frame,
}

-- What the loop of ReadMessage does with a frame.
pub data Action : Type 0 where
  stop : Error → Action
  pong : List ℕ → Action
  skip : Action
  add : List ℕ → Action

abbrev pub is_data : ℕ → Bool
is_data opcode = opcode == 1 || opcode == 2

unfoldable pub act : Bool → Frame → Action
act started f =
    if f.opcode == 8
    then stop closed
    else if f.opcode == 9
    then pong f.payload
    else if f.opcode == 10
    then skip
    else if is_data f.opcode
    then if started then stop (protocol "unexpected data frame") else add f.payload
    else if f.opcode == 0
    then if started then add f.payload else stop (protocol "unexpected continuation")
    else stop (protocol "opcode")

abbrev pub is_started : Option (List ℕ) → Bool
is_started none = false
is_started (some bs) = true

abbrev pub bytes_of : Option (List ℕ) → List ℕ
bytes_of none = []
bytes_of (some bs) = bs

-- One turn of the loop, with what a frame, final or not, tells it; `next` is the rest of the loop.
abbrev pub turn :
    Conn
    → (Option (List ℕ) → Wire → Result Error (List ℕ) × Wire)
    → Option (List ℕ)
    → Bool
    → Wire
    → Action
    → Result Error (List ℕ) × Wire
turn c next out fin w (stop e) = (err e, w)
turn c next out fin w (pong b) = and_then (write_frame c 0xA b w) (next out)
turn c next out fin w skip = next out w
turn c next out fin w (add b) =
    let all = bytes_of out ++ b in
    if ltb c.max (length all)
    then (err too_large, w)
    else if fin
    then (ok all, w)
    else next (some all) w

-- What comes of trying to read a frame.
abbrev pub on_frame :
    Conn
    → (Option (List ℕ) → Wire → Result Error (List ℕ) × Wire)
    → Option (List ℕ)
    → Wire
    → Result Error (Frame × List ℕ)
    → Result Error (List ℕ) × Wire
on_frame c next out w (err e) = (err e, w)
on_frame c next out w (ok (f, rest)) =
    turn c next out f.fin (record w { input = rest }) (act (is_started out) f)

-- The loop, with the bytes collected so far where it has started.
unfoldable pub read_loop : ℕ → Conn → Option (List ℕ) → Wire → Result Error (List ℕ) × Wire
read_loop zero c out w = (err eof, w)
read_loop (suc fuel) c out w = on_frame c (read_loop fuel c) out w (read_frame c w.input)

-- A frame has a byte, so the number of bytes and one are turns enough.
unfoldable pub read_message : Conn → Wire → Result Error (List ℕ) × Wire
read_message c w = read_loop (suc (length w.input)) c none w
