-- ===== src/Mcp/Dispatched.antt =====
-- Which calls the server makes of the hub, for whom, and what it records of them.
use open_remote_commander.Prelude.{
  ◌≡◌, refl, ◌⊎◌, inl, inr, String, Bool, true, false, not, List, [], ◌∷◌, Option, none, some, Map,
  ok, Bool-cases, Option-cases, Result-cases, str_eq, lookup, delete, lookup-delete_self,
  trim_space, ◌||◌, ℕ, has_prefix, eq_iff,
}
use open_remote_commander.Auth.{Identity, require}
use open_remote_commander.Store.{Device, AuditEvent}
use open_remote_commander.Relay.{Answer, answered, broken}
use open_remote_commander.Mcp.Headers.{RpcRequest, ProtocolHeaders, validate_headers, is_absent}
use open_remote_commander.Mcp.Tools.{known_remote_tool}
use open_remote_commander.Mcp.{
  Server, HttpRequest, Dispatch, Outcome, event, status_of, after_call, device_id_of, all_valid,
  call_remote, call_tool,
}
use open_remote_commander.Mcp.Served.{answer, serve_rpc, serve_body, identity_of, serve}

-- The call is for a tool of the table, of a device that the subject owns; the device's own identifier is
-- not among the arguments.
pub record IsOwn (s : Server) (subject : String) (d : Dispatch) : Type 0 where
  pub by : d.subject ≡ subject
  pub device : Device
  pub owned : s.storage.get subject d.device_id ≡ ok device
  pub known : known_remote_tool d.tool ≡ true
  pub bare : lookup "device_id" d.payload ≡ none

-- One audit event tells of the call, unless its answer is no JSON, of which none does.
abbrev pub Recorded : Server → Dispatch → List AuditEvent → Type 0
Recorded s d audited =
    ((status : String) × (code : String) × (audited ≡ event s d status code ∷ []))
    ⊎ ((value : String) × (s.call d.subject d.device_id d.tool d.payload ≡ answered value none)
        × (s.json.is_valid value ≡ false)
        × (audited ≡ []))

-- A request on which nothing happens but the answer.
abbrev pub Quiet : Outcome → Type 0
Quiet o = (o.dispatched ≡ []) × (o.audited ≡ [])

-- Nothing is called and nothing recorded, or one call is made for the subject.
abbrev pub Sound : Server → String → Outcome → Type 0
Sound s subject o =
    Quiet o
    ⊎ ((d : Dispatch) × (o.dispatched ≡ d ∷ []) × IsOwn s subject d × Recorded s d o.audited)

module _ (s : Server) where
  after_call-Recorded :
      (id : String) (modern : Bool) (d : Dispatch) (a : Answer)
      → s.call d.subject d.device_id d.tool d.payload ≡ a
      → ((after_call s id modern d a).dispatched ≡ d ∷ [])
        × Recorded s d (after_call s id modern d a).audited
  unfolding after_call
  after_call-Recorded id modern d (broken e) h =
      (refl, inl ((status_of e).0, (status_of e).1, refl))
  after_call-Recorded id modern d (answered value (some e)) h = (refl, inl ("error", e.code, refl))
  after_call-Recorded id modern d (answered value none) h = elim (Bool-cases (is_absent value)) [
    | inl none_there ↦ rw none_there (refl, inl ("ok", "", refl))
    | inr there ↦ elim (Bool-cases (s.json.is_valid value)) [
      | inl valid ↦ rw (there, valid) (refl, inl ("ok", "", refl))
      | inr bad ↦ rw (there, bad) (refl, inr (value, h, bad, refl))
    ]
  ]

  sent :
      (id : String) (modern : Bool) (subject name : String) (args : Map String)
      → known_remote_tool name ≡ true
      → (device : Device) → s.storage.get subject (device_id_of s.json args) ≡ ok device
      → let d : Dispatch = record {
        subject = subject;
        device_id = device_id_of s.json args;
        tool = name;
        payload = delete "device_id" args;
      } in
        Sound s subject (after_call s id modern d (s.call subject d.device_id name d.payload))
  sent id modern subject name args known device owned =
      let d : Dispatch = record {
        subject = subject;
        device_id = device_id_of s.json args;
        tool = name;
        payload = delete "device_id" args;
      } in
      let (once, kept) =
        after_call-Recorded id modern d (s.call subject d.device_id name d.payload) refl in
      inr (
        d,
        once,
        record {
          by = refl;
          device = device;
          owned = owned;
          known = known;
          bare = lookup-delete_self "device_id" args;
        },
        kept,
      )

  call_remote-Sound :
      (id : String) (modern : Bool) (subject name : String) (args : Map String)
      → Sound s subject (call_remote s id modern subject name args)
  unfolding call_remote
  call_remote-Sound id modern subject name args = elim (Bool-cases (known_remote_tool name)) [
    | inr unknown ↦ rw unknown (inl (refl, refl))
    | inl known ↦ elim (Bool-cases (str_eq (trim_space (device_id_of s.json args)) "")) [
      | inl blank ↦ rw (known, blank) (inl (refl, refl))
      | inr named ↦ elim (Result-cases (s.storage.get subject (device_id_of s.json args))) [
        | inr (e, other) ↦ rw (known, named, other) (inl (refl, refl))
        | inl (device, owned) ↦ elim (Bool-cases (all_valid s.json (delete "device_id" args))) [
          | inr bad ↦ rw (known, named, owned, bad) (inl (refl, refl))
          | inl valid ↦
              rw (known, named, owned, valid) (sent id modern subject name args known device owned)
        ]
      ]
    ]
  ]

  call_tool-Sound :
      (req : RpcRequest) (identity : Identity) (modern : Bool)
      → Sound s identity.subject (call_tool s req identity modern)
  unfolding call_tool
  call_tool-Sound req identity modern = elim (Option-cases (s.json.call req.params)) [
    | inl bad ↦ rw (bad, call_tool) (inl (refl, refl))
    | inr (p, good) ↦
        rw (good, call_tool)
          (elim (Bool-cases (str_eq p.0 "")) [
            | inl empty ↦ rw empty (inl (refl, refl))
            | inr named ↦ elim (Bool-cases (str_eq p.0 "list_devices")) [
              | inr other ↦
                  rw (named, other) (call_remote-Sound req.id modern identity.subject p.0 p.1)
              | inl listing ↦ elim (Result-cases (s.storage.list identity.subject)) [
                | inl (found, e) ↦ rw (named, listing, e) (inl (refl, refl))
                | inr (e, failed) ↦ rw (named, listing, failed) (inl (refl, refl))
              ]
            ]
          ])
  ]

  answer-Sound :
      (req : RpcRequest) (identity : Identity) (modern : Bool)
      → Sound s identity.subject (answer s req identity modern)
  answer-Sound req identity modern = elim (Bool-cases (str_eq req.method "server/discover")) [
    | inl m ↦ rw (m, answer) (inl (refl, refl))
    | inr n1 ↦ elim (Bool-cases (str_eq req.method "initialize")) [
      | inl m ↦ rw (n1, m, answer) (inl (refl, refl))
      | inr n2 ↦ elim (Bool-cases (str_eq req.method "ping")) [
        | inl m ↦ rw (n1, n2, m, answer) (inl (refl, refl))
        | inr n3 ↦ elim (Bool-cases (str_eq req.method "tools/list")) [
          | inl m ↦ rw (n1, n2, n3, m, answer) (inl (refl, refl))
          | inr n4 ↦ elim (Bool-cases (str_eq req.method "tools/call")) [
            | inl m ↦ rw (n1, n2, n3, n4, m, answer) (call_tool-Sound req identity modern)
            | inr n5 ↦ rw (n1, n2, n3, n4, n5, answer) (inl (refl, refl))
          ]
        ]
      ]
    ]
  ]

  serve_rpc-Sound :
      (headers : ProtocolHeaders) (identity : Identity) (req : RpcRequest)
      → Sound s identity.subject (serve_rpc s headers identity req)
  unfolding serve_rpc
  serve_rpc-Sound headers identity req =
      elim (Bool-cases (not (str_eq req.jsonrpc "2.0") || str_eq req.method "")) [
        | inl bad ↦ rw (bad, serve_rpc) (inl (refl, refl))
        | inr well ↦ elim (Result-cases (validate_headers s.json headers req)) [
          | inr (message, bad) ↦ rw (well, bad, serve_rpc) (inl (refl, refl))
          | inl (modern, good) ↦ elim (Bool-cases (is_absent req.id)) [
            | inl notice ↦ rw (well, good, notice, serve_rpc) (inl (refl, refl))
            | inr asked ↦ rw (well, good, asked, serve_rpc) (answer-Sound req identity modern)
          ]
        ]
      ]

  serve_body-Sound :
      (headers : ProtocolHeaders) (identity : Identity) (body : Option (List ℕ))
      → Sound s identity.subject (serve_body s headers identity body)
  serve_body-Sound headers identity none = inl (refl, refl)
  serve_body-Sound headers identity (some body) = elim (Option-cases (s.json.request body)) [
    | inl bad ↦ rw (bad, serve_body) (inl (refl, refl))
    | inr (req, good) ↦ rw (good, serve_body) (serve_rpc-Sound headers identity req)
  ]

  -- Who is served: the request is a POST whose token the verifier accepts for the scope of the tools.
  abbrev pub IsServed : HttpRequest → Identity → Type 0
  IsServed r identity =
      (r.method ≡ "POST")
      × ((token : List ℕ) × (r.token ≡ some token)
          × (require s.verifier token "orc:tools" ≡ ok identity))

  -- Whatever the request, either no call is made of the hub and nothing is recorded; or it is a POST with
  -- a token accepted for orc:tools, and one call is made, for that token's subject, of a known tool, of a
  -- device that the store gives to that subject, and it is recorded in one audit event, unless the device
  -- answered something that is no JSON.
  pub serve_lem :
      (r : HttpRequest)
      → Quiet (serve s r)
        ⊎ ((identity : Identity) × IsServed r identity × Sound s identity.subject (serve s r))
  unfolding serve
  serve_lem r = elim (Bool-cases (str_eq r.method "POST")) [
    | inr other ↦ rw other (inl (refl, refl))
    | inl post ↦ elim (Bool-cases (has_prefix (s.lower r.content_type) "application/json")) [
      | inr other ↦ rw (post, other) (inl (refl, refl))
      | inl typed ↦
          rw (post, typed)
            (elim (identity-cases r.token) [
              | inl stranger ↦ rw stranger (inl (refl, refl))
              | inr (identity, known, token, sent_, accepted) ↦ rw known (
                  inr (
                    identity,
                    ((eq_iff r.method "POST").0 post, (token, sent_, accepted)),
                    serve_body-Sound r.headers identity r.body,
                  ))
            ])
    ]
  ]
    where
      identity-cases :
          (given : Option (List ℕ))
          → (identity_of s given ≡ none)
            ⊎ ((identity : Identity) × (identity_of s given ≡ some identity)
                × (token : List ℕ) × (given ≡ some token)
                × (require s.verifier token "orc:tools" ≡ ok identity))
      identity-cases none = inl refl
      identity-cases (some token) = elim (Result-cases (require s.verifier token "orc:tools")) [
        | inl (identity, good) ↦ inr (identity, rw (good, identity_of), token, refl, good)
        | inr (e, bad) ↦ inl (rw (bad, identity_of))
      ]
