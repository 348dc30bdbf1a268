-- ===== src/Audit.antt =====
-- internal/audit/writer.go: a queue of events between the requests that record them and the goroutine
-- that gives them to the store. `sent` are the calls of WriteAudit; one that fails is only logged.
pub mod Delivery
pub mod Tests
use open_remote_commander.Prelude.{
  ℕ, ◌+◌, ◌≡◌, Bool, true, false, List, [], ◌∷◌, ◌++◌, length, ltb, leb, if◌then◌else◌,
}
use open_remote_commander.Prelude.Int.{ℤ, pos, ltb_ℤ, pos_part}
use open_remote_commander.Store.{AuditEvent}

-- Where the goroutine stands: in the first select, in the loop that empties the queue, or returned.
pub data Phase : Type 0 where
  serving draining returned : Phase

pub record Writer : Type 0 where
  pub capacity : ℕ
  pub queue : List AuditEvent
  pub sent : List AuditEvent
  pub cancelled : Bool
  pub phase : Phase

unfoldable pub new_writer : ℤ → Writer
new_writer capacity = record {
  capacity = if ltb_ℤ capacity (pos 1) then 1024 else pos_part capacity;
  queue = [];
  sent = [];
  cancelled = false;
  phase = serving;
}

-- Record, and whether the event was queued.
unfoldable pub enqueue : AuditEvent → Writer → Bool × Writer
enqueue e w =
    if ltb (length w.queue) w.capacity
    then (true, record w { queue = w.queue ++ e ∷ [] })
    else (false, w)

-- cancel(), by Close.
abbrev pub cancel : Writer → Writer
cancel w = record w { cancelled = true }

-- case e := <-w.queue: write(e)
abbrev pub send_first : AuditEvent → List AuditEvent → Writer → Writer
send_first e es w = record w { queue = es; sent = w.sent ++ e ∷ [] }

-- What happens to a writer. The first select takes an event or sees the cancelled context, in either
-- order where both are there; the loop that empties the queue ends where it finds the queue empty.
pub data Step (w : Writer) : List AuditEvent → Writer → Type 0 where
  records : (e : AuditEvent) → (enqueue e w).0 ≡ true → Step w (e ∷ []) (enqueue e w).1
  drops : (e : AuditEvent) → (enqueue e w).0 ≡ false → Step w [] (enqueue e w).1
  cancels : Step w [] (cancel w)
  sends :
      (e : AuditEvent) (es : List AuditEvent)
      → w.phase ≡ serving
      → w.queue ≡ e ∷ es
      → Step w [] (send_first e es w)
  turns : w.phase ≡ serving → w.cancelled ≡ true → Step w [] (record w { phase = draining })
  drains :
      (e : AuditEvent) (es : List AuditEvent)
      → w.phase ≡ draining
      → w.queue ≡ e ∷ es
      → Step w [] (send_first e es w)
  returns : w.phase ≡ draining → w.queue ≡ [] → Step w [] (record w { phase = returned })

-- The events that were queued on the way, in order.
pub data Reach (w : Writer) : List AuditEvent → Writer → Type 0 where
  here : Reach w [] w
  next :
      {es fs : List AuditEvent} {v u : Writer} → Reach w es v → Step v fs u → Reach w (es ++ fs) u
