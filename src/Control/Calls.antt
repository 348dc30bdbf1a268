-- ===== src/Control/Calls.antt =====
-- What a request to the control plane asks of the store: one call at most, and for whom.
pub mod Wrapped
pub mod Handled
pub mod Answered
use open_remote_commander.Prelude.{ℕ, ◌≡◌, String, List, Option, none, some, ok}
use open_remote_commander.Auth.{Identity, require}
use open_remote_commander.Store.{Device}
use open_remote_commander.Store.Memory.{
  Memory, step, Call, touches, revokes, creates_pairing, approves, consumes, approve_pairing,
  consume_pairing,
}
use open_remote_commander.Control
use open_remote_commander.Control.Codes.{normalize}
use open_remote_commander.Control.Pairing.{hash_user_code}
use open_remote_commander.Control.{
  Body, issued, Env, Control, Route, Request, Response, lists, submits_form,
}

-- The access token that a request carries for a user.
abbrev pub carried : Route → Option (List ℕ)
carried (Control.approves token body) = token
carried (lists token) = token
carried (Control.revokes token id) = token
carried (submits_form (some f)) = some f.0
carried _ = none

-- The request's token is accepted, with the scope of the tools, for that subject.
pub record Grants (env : Env) (r : Request) (subject : String) : Type 0 where
  pub token : List ℕ
  pub identity : Identity
  pub is_carried : carried r.route ≡ some token
  pub accepted : require (env.verifier r.now) token "orc:tools" ≡ ok identity
  pub is_subject : identity.subject ≡ subject

-- The code that a request to approve carries, as it was typed.
abbrev pub typed_code : Route → Option String
typed_code (Control.approves token body) = body
typed_code (submits_form (some f)) = some f.1
typed_code _ = none

-- The request asks, for a subject whom its token grants it, to approve what the code stands for.
pub record IsApproval (env : Env) (r : Request) (code owner : String) : Type 0 where
  pub grants : Grants env r owner
  pub typed : String
  pub is_typed : typed_code r.route ≡ some typed
  pub is_code : hash_user_code env (normalize env.upper typed) ≡ code

-- The request asks for the device of a device code.
pub record IsConsumption (env : Env) (r : Request) (k : String) (d : Device) : Type 0 where
  pub code : String
  pub is_sent : r.route ≡ Control.consumes (some code)
  pub is_hash : env.hash code ≡ k
  pub is_live : d.revoked_at ≡ none

-- A call that a handler may make of the store for a request.
abbrev pub IsMade : Env → Request → Call → Type 0
IsMade env r (touches id) = Unit {0}
IsMade env r (revokes owner id) = Grants env r owner
IsMade env r (creates_pairing p) = (p.approved_at ≡ none) × (p.consumed_at ≡ none)
IsMade env r (approves code owner) = IsApproval env r code owner
IsMade env r (consumes k d token) = IsConsumption env r k d
IsMade env r _ = ⊥

-- What an answer tells of the call: success, where the store did what it was asked.
abbrev pub Tells : Env → Request → Memory → ℕ → Body → Call → Type 0
Tells env r m status body (approves code owner) =
    (approve_pairing r.stored_at code owner m).0 ≡ ok tt → status ≡ 200
Tells env r m status body (consumes k d token) =
    (e : Device)
    → (consume_pairing env.hash r.stored_at k d token m).0 ≡ ok e
    → body ≡ issued e.id token
Tells env r m status body _ = Unit {0}

module _ (env : Env) (r : Request) (P : ℕ → Body → Memory → Type 0) where
  abbrev pub Same : Memory → Type 0
  Same m = (status : ℕ) (body : Body) → P status body m

  abbrev pub Made : Memory → Type 0
  Made m =
      (c : Call) (status : ℕ) (body : Body)
      → IsMade env r c
      → Tells env r m status body c
      → P status body (step env.hash m (r.stored_at, c))

  -- `P` holds of the answer and the store after it, if it holds of any answer with the store as it was,
  -- and of each call that may be made with an answer that tells of it.
  abbrev pub Rule : (Control → Response × Control) → Type 0
  Rule next =
      (s : Control)
      → Same s.memory
      → Made s.memory
      → P (next s).0.status (next s).0.body (next s).1.memory
