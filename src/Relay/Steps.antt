-- ===== src/Relay/Steps.antt =====
-- What can happen to the hub of internal/relay/hub.go, in any order.
use open_remote_commander.Prelude.{ℕ, ◌<◌, ◌≡◌, String, none, some, get_elem?, lookup}
use open_remote_commander.Relay.{
  Answer, Call, DeviceConn, Error, Frame, Hub, acquire, begin_close, deliver, disconnect, enter,
  flush, frees, give_up, holds, leaves, make_pending, marked, over, pends, register, release,
  remove_pending, unlist, unlisted, validate, waits,
}

abbrev pub Runs : Hub → ℕ → Call → Type 0
Runs h k c = get_elem? h.calls k ≡ some c

abbrev pub Has : Hub → ℕ → DeviceConn → Type 0
Has h i d = get_elem? h.conns i ≡ some d

-- What can happen to a hub, in any order. A random request identifier is not pending.
pub data Step (h : Hub) : Hub → Type 0 where
  registers : (device_id owner : String) → Step h (register device_id owner h)
  disconnects : (device_id : String) → Step h (disconnect device_id h)
  enters : (owner device_id : String) → Step h (enter owner device_id h).1
  acquires :
      (k : ℕ) (c : Call) (d : DeviceConn)
      → Runs h k c
      → c.stage ≡ waits
      → Has h c.conn d
      → d.in_flight < h.max_in_flight
      → Step h (acquire k c h)
  gives_up :
      (k : ℕ) (c : Call) (a : Answer) → Runs h k c → c.stage ≡ waits → Step h (give_up k over a h)
  fails :
      (k : ℕ) (c : Call) (a : Answer) → Runs h k c → c.stage ≡ holds → Step h (give_up k frees a h)
  pending_made :
      (k : ℕ) (c : Call) (d : DeviceConn) (id : String)
      → Runs h k c
      → c.stage ≡ holds
      → Has h c.conn d
      → lookup id d.pending ≡ none
      → Step h (make_pending k c d id h)
  receives :
      (k : ℕ) (c : Call) (a : Answer)
      → Runs h k c
      → c.stage ≡ pends
      → c.chan ≡ some a
      → Step h (give_up k leaves a h)
  stops :
      (k : ℕ) (c : Call) (a : Answer) → Runs h k c → c.stage ≡ pends → Step h (give_up k leaves a h)
  pending_removed :
      (k : ℕ) (c : Call) → Runs h k c → c.stage ≡ leaves → Step h (remove_pending k c h)
  releases : (k : ℕ) (c : Call) → Runs h k c → c.stage ≡ frees → Step h (release k c h)
  delivers :
      (i : ℕ) (d : DeviceConn) (f : Frame) → Has h i d → validate f ≡ none → Step h (deliver d f h)
  closes : (i : ℕ) (e : Error) → Step h (begin_close i e h)
  unlists :
      (i : ℕ) (d : DeviceConn) (e : Error)
      → Has h i d
      → d.phase ≡ marked e
      → Step h (unlist i d e h)
  flushes :
      (i : ℕ) (d : DeviceConn) (e : Error)
      → Has h i d
      → d.phase ≡ unlisted e
      → Step h (flush i d e h)

pub data Reach (h : Hub) : Hub → Type 0 where
  here : Reach h h
  next : {g k : Hub} → Reach h g → Step g k → Reach h k
