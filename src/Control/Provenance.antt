-- ===== src/Control/Provenance.antt =====
-- What requests to the control plane did for a pairing and for a device's credentials.
use open_remote_commander.Prelude.{◌≡◌, ◌≤◌, String, List, ◌∷◌, ◌++◌, none, some, lookup}
use open_remote_commander.Store.{Pairing}
use open_remote_commander.Store.Memory.{approved, pairing_at, refusal}
use open_remote_commander.Control
use open_remote_commander.Control.{Env, Control, Request, Response, Body}
use open_remote_commander.Control.Codes.{normalize}
use open_remote_commander.Control.Pairing.{hash_user_code}
use open_remote_commander.Control.Calls.{Grants, typed_code}
use open_remote_commander.Control.Routes.{handle, serve_all}

-- The request, handled in that state, approves the pairing under the key for the subject.
pub record Approval (env : Env) (r : Request) (s : Control) (k subject : String) : Type 0 where
  pub grants : Grants env r subject
  pub typed : String
  pub is_typed : typed_code r.route ≡ some typed
  pub named : lookup (hash_user_code env (normalize env.upper typed)) s.memory.user_code ≡ some k
  pub in_time : r.stored_at ≤ (pairing_at k s.memory.pairings).expires_at
  pub unused : (pairing_at k s.memory.pairings).consumed_at ≡ none
  pub answered : (handle env r s).0.status ≡ 200
  pub stored :
      lookup k (handle env r s).1.memory.pairings
      ≡ some (approved r.stored_at subject (pairing_at k s.memory.pairings))

-- The request, handled in that state, is answered with the credentials of a device of the subject,
-- from the pairing under the key.
pub record Issue (env : Env) (r : Request) (s : Control) (k id subject hash : String) : Type 0 where
  pub code : String
  pub token : String
  pub pairing : Pairing
  pub is_sent : r.route ≡ Control.consumes (some code)
  pub is_key : env.hash code ≡ k
  pub found : lookup k s.memory.pairings ≡ some pairing
  pub is_open : refusal r.stored_at pairing ≡ none
  pub is_owner : pairing.owner_subject ≡ subject
  pub answered : (handle env r s).0.body ≡ Control.issued id token
  pub is_hash : env.hash token ≡ hash

-- One of the requests, each handled in the state that those before it left, approved the pairing.
pub record IsApproved (env : Env) (s : Control) (rs : List Request) (k subject : String)
    : Type 0 where
  pub before : List Request
  pub request : Request
  pub after : List Request
  pub split : before ++ request ∷ after ≡ rs
  pub approval : Approval env request (serve_all env before s) k subject

-- One of the requests was answered with the device's credentials, from a pairing that an earlier one
-- of them approved for the subject.
pub record IsPaired (env : Env) (s : Control) (rs : List Request) (id subject hash : String)
    : Type 0 where
  pub before : List Request
  pub request : Request
  pub after : List Request
  pub split : before ++ request ∷ after ≡ rs
  pub key : String
  pub approved_before : IsApproved env s before key subject
  pub issue : Issue env request (serve_all env before s) key id subject hash
