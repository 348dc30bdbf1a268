-- ===== src/Relay.antt =====
-- internal/relay/hub.go and internal/protocol/frame.go. `conns` holds the deviceConn objects, a
-- pointer is a position in it, and `devices` maps device identifiers to pointers. `calls` holds the
-- goroutines that are in Call, each at one of six points; a pending entry maps a request identifier to
-- the call that waits on its channel. Each critical section of the code is one function. JSON texts
-- are texts, and the connection's own reads and writes are those of Ws.
pub mod Steps
pub mod Counts
pub mod Changes
pub mod Limit
pub mod Owners
pub mod Tests
use open_remote_commander.Prelude.{
  ℕ, zero, suc, ◌+◌, ◌-◌, ◌<◌, ◌≡◌, String, Bool, true, false, ◌&&◌, ◌||◌, not, List, [], ◌∷◌, ◌++◌,
  Option, none, some, Map, Result, ok, err, length, get_elem?, update_at, ltb, leb, ◌==◌, str_eq,
  if◌then◌else◌, lookup, insert, delete, is_some,
}

-- protocol.Frame; `args` is the JSON text, "" where there is none.
pub record RemoteError : Type 0 where
  pub code : String
  pub message : String

pub record Frame : Type 0 where
  pub type : String
  pub id : String
  pub tool : String
  pub args : String
  pub is_ok : Bool
  pub result : String
  pub error : Option RemoteError

-- Frame.Validate: the reason to refuse a frame.
unfoldable pub validate : Frame → Option String
validate f =
    if str_eq f.type "call"
    then if str_eq f.id "" || str_eq f.tool ""
      then some "call frame requires id and tool"
      else if str_eq f.args ""
      then some "call frame requires args"
      else none
    else if str_eq f.type "result"
    then if str_eq f.id ""
      then some "result frame requires id"
      else if not f.is_ok && not (is_some f.error)
      then some "failed result requires error"
      else none
    else if str_eq f.type "ping" || str_eq f.type "pong"
    then none
    else some "unknown frame type"

pub data Error : Type 0 where
  offline closed context : Error
  failed : String → Error

-- What a channel of a pending call holds, or a call returns.
pub data Answer : Type 0 where
  answered : String → Option RemoteError → Answer
  broken : Error → Answer

-- close runs once: it closes the connection and `done`, takes the connection from the hub, and then
-- answers what is pending.
pub data Phase : Type 0 where
  open_ : Phase
  marked unlisted flushed : Error → Phase

pub record DeviceConn : Type 0 where
  pub device_id : String
  pub owner : String
  pub in_flight : ℕ
  pub pending : Map ℕ
  pub phase : Phase

-- Where a call stands: it waits for a place, it has one, it is registered and waits for its answer, it
-- is to be taken from the pending ones, it is to give its place back, or it is over.
pub data Stage : Type 0 where
  waits holds pends leaves frees over : Stage

pub record Call : Type 0 where
  pub conn : ℕ
  pub id : String
  pub chan : Option Answer
  pub stage : Stage
  pub result : Option Answer

pub record Hub : Type 0 where
  pub conns : List DeviceConn
  pub devices : Map ℕ
  pub calls : List Call
  pub max_in_flight : ℕ

abbrev pub is_done : Phase → Bool
is_done open_ = false
is_done (marked e) = true
is_done (unlisted e) = true
is_done (flushed e) = true

unfoldable pub new_hub : ℕ → Hub
new_hub n = record {
  conns = [];
  devices = [];
  calls = [];
  max_in_flight = if ltb n 1 then 16 else n;
}

-- The connection that a device identifier stands for.
unfoldable pub conn_of : String → Hub → Option (ℕ × DeviceConn)
conn_of id h = elim (lookup id h.devices) [
  | none ↦ none
  | some i ↦ elim (get_elem? h.conns i) [ none ↦ none | some d ↦ some (i, d) ]
]

abbrev pub set_phase : Phase → DeviceConn → DeviceConn
set_phase p d = record d { phase = p }

-- once.Do, up to close(d.done).
abbrev pub mark : Error → DeviceConn → DeviceConn
mark e d = if is_done d.phase then d else set_phase (marked e) d

unfoldable pub begin_close : ℕ → Error → Hub → Hub
begin_close i e h = record h { conns = update_at (mark e) i h.conns }

-- The section under hub.mu.
unfoldable pub unlist : ℕ → DeviceConn → Error → Hub → Hub
unlist i d e h = record h {
  conns = update_at (set_phase (unlisted e)) i h.conns;
  devices = elim (lookup d.device_id h.devices) [
    | none ↦ h.devices
    | some j ↦ if j == i then delete d.device_id h.devices else h.devices
  ];
}

-- select { case ch <- p: default: }
abbrev pub offer : Answer → Call → Call
offer a c = if is_some c.chan then c else record c { chan = some a }

unfoldable pub offer_all : Answer → Map ℕ → List Call → List Call
offer_all a [] calls = calls
offer_all a ((id, k) ∷ pending) calls = offer_all a pending (update_at (offer a) k calls)

-- The section under d.mu.
unfoldable pub flush : ℕ → DeviceConn → Error → Hub → Hub
unfolding offer_all
flush i d e h = record h {
  conns = update_at (λ d. record d { pending = []; phase = flushed e }) i h.conns;
  calls = offer_all (broken e) d.pending h.calls;
}

-- Register; the old connection is closed after it, the read loop of the new one starts.
unfoldable pub register : String → String → Hub → Hub
unfolding begin_close
register device_id owner h =
    let d : DeviceConn = record {
      device_id = device_id;
      owner = owner;
      in_flight = 0;
      pending = [];
      phase = open_;
    } in
    let h' : Hub = record h {
      conns = h.conns ++ d ∷ [];
      devices = insert device_id (length h.conns) h.devices;
    } in
    elim (lookup device_id h.devices) [ none ↦ h' | some old ↦ begin_close old closed h' ]

unfoldable pub is_online : String → String → Hub → Bool
is_online owner device_id h = elim (conn_of device_id h) [
  | none ↦ false
  | some p ↦ str_eq p.1.owner owner
]

unfoldable pub disconnect : String → Hub → Hub
disconnect device_id h = elim (conn_of device_id h) [ none ↦ h | some p ↦ begin_close p.0 closed h ]

-- Call, up to the wait for a place: the call that then waits, or the error.
unfoldable pub enter : String → String → Hub → Result Error ℕ × Hub
enter owner device_id h = elim (conn_of device_id h) [
  | none ↦ (err offline, h)
  | some p ↦
      if str_eq p.1.owner owner
      then (
        ok (length h.calls),
        record h {
          calls =
              h.calls
              ++ record { conn = p.0; id = ""; chan = none; stage = waits; result = none } ∷ [];
        },
      )
      else (err offline, h)
]

abbrev pub at_stage : Stage → Call → Call
at_stage s c = record c { stage = s }

abbrev pub ends_with : Stage → Answer → Call → Call
ends_with s a c = record c { stage = s; result = some a }

abbrev pub take_place : DeviceConn → DeviceConn
take_place d = record d { in_flight = d.in_flight + 1 }

abbrev pub give_place : DeviceConn → DeviceConn
give_place d = record d { in_flight = d.in_flight - 1 }

-- case d.sem <- struct{}{}
unfoldable pub acquire : ℕ → Call → Hub → Hub
acquire k c h = record h {
  conns = update_at take_place c.conn h.conns;
  calls = update_at (at_stage holds) k h.calls;
}

-- The context or the connection ends before there is a place, or the identifier or the payload fails.
unfoldable pub give_up : ℕ → Stage → Answer → Hub → Hub
give_up k s a h = record h { calls = update_at (ends_with s a) k h.calls }

-- The section under d.mu: no call is registered on a connection that is done.
unfoldable pub make_pending : ℕ → Call → DeviceConn → String → Hub → Hub
unfolding give_up
make_pending k c d id h = if is_done d.phase then give_up k frees (broken offline) h else record h {
  conns = update_at (λ d. record d { pending = insert id k d.pending }) c.conn h.conns;
  calls = update_at (λ c. record c { id = id; stage = pends }) k h.calls;
}

-- The first deferred function that runs.
unfoldable pub remove_pending : ℕ → Call → Hub → Hub
remove_pending k c h = record h {
  conns = update_at (λ d. record d { pending = delete c.id d.pending }) c.conn h.conns;
  calls = update_at (at_stage frees) k h.calls;
}

-- The second: <-d.sem
unfoldable pub release : ℕ → Call → Hub → Hub
release k c h = record h {
  conns = update_at give_place c.conn h.conns;
  calls = update_at (at_stage over) k h.calls;
}

-- readLoop on a result frame of connection i.
unfoldable pub deliver : DeviceConn → Frame → Hub → Hub
deliver d f h = elim (lookup f.id d.pending) [
  | none ↦ h
  | some k ↦ record h { calls = update_at (offer (answered f.result f.error)) k h.calls }
]
