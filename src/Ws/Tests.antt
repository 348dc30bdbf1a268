-- ===== src/Ws/Tests.antt =====
-- Runs of the frames and messages of internal/ws/ws.go, with the examples of RFC 6455.
use open_remote_commander.Prelude.{ℕ, ◌≡◌, refl, true, List, [], ◌∷◌, ◌++◌, arith, none, ok, err}
use open_remote_commander.Ws.{
  closed, protocol, server, client, Conn, Mask, Wire, Frame, apply_mask, read_full, uint_from,
  extended, read_length, read_frame, length_bytes, header, conn_write, send, send_as, write_frame,
  write_message, close,
}
use open_remote_commander.Ws.Reading.{act, read_loop, read_message}
use open_remote_commander.Ws.Frames.{Carries, read_frame_iff}
use open_remote_commander.Ws.Fragments.{with_input}
use open_remote_commander.Ws.Messages.{Reads, read_message_iff}
use open_remote_commander.Ws.RoundTrip.{read_message-write_message}

abbrev server_conn : Conn
server_conn = record { role = server; max = 1000 }

abbrev client_conn : Conn
client_conn = record { role = client; max = 1000 }

abbrev a_mask : Mask
a_mask = record { m0 = 0x37; m1 = 0xfa; m2 = 0x21; m3 = 0x3d }

abbrev hello : List ℕ
hello = 0x48 ∷ 0x65 ∷ 0x6c ∷ 0x6c ∷ 0x6f ∷ []

-- "Hello" in one masked frame, and a byte behind it.
abbrev masked_hello : List ℕ
masked_hello =
    0x81 ∷ 0x85 ∷ 0x37 ∷ 0xfa ∷ 0x21 ∷ 0x3d ∷ 0x7f ∷ 0x9f ∷ 0x4d ∷ 0x51 ∷ 0x58 ∷ 0x81 ∷ []

abbrev wire : List ℕ → Wire
wire s = record { input = s; output = []; room = 1000; entropy = a_mask ∷ [] }

abbrev hello_frame : Frame
hello_frame = record { fin = true; opcode = 1; payload = hello }

reads_masked : read_frame server_conn masked_hello ≡ ok (hello_frame, 0x81 ∷ [])
unfolding read_frame read_length read_full apply_mask
reads_masked = refl

refuses_unmasked : read_frame server_conn (0x81 ∷ 0 ∷ []) ≡ err (protocol "invalid masking")
unfolding read_frame
refuses_unmasked = refl

refuses_long_form :
    read_frame client_conn (0x81 ∷ 126 ∷ 0 ∷ 5 ∷ hello) ≡ err (protocol "non-canonical length")
unfolding read_frame read_length extended read_full uint_from
refuses_long_form = refl

refuses_split_ping : read_frame client_conn (0x09 ∷ 0 ∷ []) ≡ err (protocol "invalid control frame")
unfolding read_frame read_length
refuses_split_ping = refl

writes_masked : (write_message client_conn hello (wire [])).1.output ++ 0x81 ∷ [] ≡ masked_hello
unfolding write_message write_frame send_as send header length_bytes conn_write apply_mask
writes_masked = refl

-- "Hel", a ping of one byte, and "lo" in frames of a server.
abbrev fragments : List ℕ
fragments = 0x01 ∷ 3 ∷ 0x48 ∷ 0x65 ∷ 0x6c ∷ 0x89 ∷ 1 ∷ 7 ∷ 0x80 ∷ 2 ∷ 0x6c ∷ 0x6f ∷ 0x8a ∷ []

abbrev answered : Wire
answered = record {
  input = 0x8a ∷ [];
  output = 0x8a ∷ 0x81 ∷ 0x37 ∷ 0xfa ∷ 0x21 ∷ 0x3d ∷ 0x30 ∷ [];
  room = 993;
  entropy = [];
}

reads_fragments : read_message client_conn (wire fragments) ≡ (ok hello, answered)
unfolding read_message read_loop read_frame read_length read_full act write_frame send_as send
    header length_bytes conn_write apply_mask
reads_fragments = refl

stops_at_close : (read_message client_conn (wire (0x88 ∷ 0 ∷ fragments))).0 ≡ err closed
unfolding read_message read_loop read_frame read_length read_full act
stops_at_close = refl

refuses_nested :
    (read_message client_conn (wire (0x01 ∷ 0 ∷ 0x81 ∷ 0 ∷ []))).0
    ≡ err (protocol "unexpected data frame")
unfolding read_message read_loop read_frame read_length read_full act
refuses_nested = refl

closes : (close server_conn (wire [])).output ≡ 0x88 ∷ 0 ∷ []
unfolding close write_frame send_as send header length_bytes conn_write
closes = refl

read_frame_iff_example : Carries server_conn masked_hello hello_frame (0x81 ∷ [])
read_frame_iff_example =
    (read_frame_iff server_conn masked_hello hello_frame (0x81 ∷ []) (omega arith) (ground arith)).0
      reads_masked

read_message_iff_example : Reads client_conn none hello (wire fragments) answered
read_message_iff_example =
    (read_message_iff client_conn hello (wire fragments) answered (omega arith) (ground arith)).0
      reads_fragments

read_message-write_message_example :
    read_message server_conn (wire masked_hello)
    ≡ (ok hello, with_input (0x81 ∷ []) (wire masked_hello))
unfolding write_message write_frame send_as send header length_bytes conn_write apply_mask
read_message-write_message_example =
    read_message-write_message client_conn server_conn hello (0x81 ∷ []) (wire [])
      (write_message client_conn hello (wire [])).1 (wire masked_hello) refl (omega arith)
      (omega arith) (ground arith) (ground arith) refl refl
