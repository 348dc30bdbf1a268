-- ===== src/Audit/Tests.antt =====
-- Runs of internal/audit/writer.go.
use open_remote_commander.Prelude.{◌≡◌, refl, false, [], ◌∷◌}
use open_remote_commander.Prelude.Int.{pos}
use open_remote_commander.Store.{AuditEvent}
use open_remote_commander.Audit.{
  Writer, new_writer, enqueue, send_first, records, drops, sends, here, next,
}
use open_remote_commander.Audit.Delivery.{IsInOrder, queued-IsInOrder}

abbrev event : AuditEvent
event = record {
  owner_subject = "alice";
  device_id = "d";
  tool_name = "read_file";
  status = "ok";
  duration = 3;
  error_code = "";
}

abbrev small : Writer
small = new_writer (pos 1)

abbrev one_queued : Writer
one_queued = (enqueue event small).1

drops_second : (enqueue event one_queued).0 ≡ false
unfolding enqueue new_writer
drops_second = refl

queued-IsInOrder_example : IsInOrder (event ∷ []) (send_first event [] one_queued)
unfolding enqueue new_writer
queued-IsInOrder_example =
    queued-IsInOrder (pos 1) (event ∷ []) (send_first event [] one_queued)
      (next (next (next here (records event refl)) (drops event refl)) (sends event [] refl refl))
