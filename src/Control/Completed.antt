-- ===== src/Control/Completed.antt =====
-- A pairing in internal/controlplane/http.go from start to end, when nothing hinders it.
use open_remote_commander.Prelude.{
  ℕ, ◌+◌, ◌*◌, ◌≤◌, ◌≡◌, ◌≢◌, ◌⊎◌, refl, sym, inl, ap, ◌∙◌, String, true, false, List, ◌||◌, none,
  some, ok, len, length, ltb, ◌==◌, str_eq, trim_space, lookup, lookup-insert_self, arith,
}
use Prim.Native.String
use open_remote_commander.Auth.{Identity}
use open_remote_commander.Store.{Device, Pairing}
use open_remote_commander.Store.Memory.{consume_pairing, approved, issued, authenticate_device}
use open_remote_commander.Store.Memory.Completed.{
  with_pairing, create_pairing_free, with_approval, approve_pairing_in_time,
  consume_pairing_in_time, refusal-approved,
}
use open_remote_commander.Store.Memory.Pairings.{consume_pairing-Consumes}
use open_remote_commander.Control
use open_remote_commander.Control.{Env, Control, Request, Response, reply, started, second}
use open_remote_commander.Control.Codes.{human_code, letters, normalize, to_upper}
use open_remote_commander.Control.Codes.Printed.{KeepsPrinted, normalize-human_code, shown_code}
use open_remote_commander.Control.Pairing.{
  new_pairing, started_of, hash_user_code, start_decoded, approved_with, approve_decoded,
  blank_device, consume_decoded,
}

module _ (env : Env) (r : Request) (s : Control) where
  started_when :
      (raw : String) (secret bytes : List ℕ)
      → (str_eq (trim_space raw) "" || ltb 160 (len (trim_space raw))) ≡ false
      → r.first_random ≡ some secret
      → r.second_random ≡ some bytes
      → let p = new_pairing env r.now (trim_space raw) (env.base64 secret) (human_code bytes) in
        lookup p.device_code_hash s.memory.pairings ≡ none
        → lookup p.user_code_hash s.memory.user_code ≡ none
        → start_decoded env r (some raw) s ≡ (
          reply 201 (started (started_of env (env.base64 secret) (human_code bytes))),
          record s { memory = with_pairing p s.memory },
        )
  unfolding start_decoded
  started_when raw secret bytes named read read' free free' =
      let p = new_pairing env r.now (trim_space raw) (env.base64 secret) (human_code bytes) in
      rw (named, read, read', create_pairing_free p s.memory free free') refl

  approved_when :
      (raw k : String) (identity : Identity) (p : Pairing)
      → len (normalize env.upper raw) ≡ 8
      → lookup (hash_user_code env (normalize env.upper raw)) s.memory.user_code ≡ some k
      → lookup k s.memory.pairings ≡ some p
      → r.stored_at ≤ p.expires_at
      → p.consumed_at ≡ none
      → approve_decoded env r (some raw) identity s ≡ (
        reply 200 Control.approved,
        record s { memory = with_approval r.stored_at identity.subject k p s.memory },
      )
  unfolding approved_with
  approved_when raw k identity p eight linked found in_time unused =
      let eight' : (len (normalize env.upper raw) == 8) ≡ true = ground (arith, eight) in
      let done =
        approve_pairing_in_time (hash_user_code env (normalize env.upper raw)) k p s.memory
          r.stored_at identity.subject linked found in_time unused in
      rw (eight', done) refl

  consumed_when :
      (code : String) (id secret : List ℕ) (e : Device)
      → (ltb (len code) 32 || ltb 256 (len code)) ≡ false
      → r.first_random ≡ some id
      → r.second_random ≡ some secret
      → let d = blank_device (String.◌++◌ "dev_" (env.hex id)) in
        let token = env.base64 secret in
        let got = consume_pairing env.hash r.stored_at (env.hash code) d token s.memory in
        got.0 ≡ ok e
        → consume_decoded env r (some code) s
          ≡ (reply 200 (Control.issued e.id token), record s { memory = got.1 })
  unfolding consume_decoded
  consumed_when code id secret e sized read read' done = rw (sized, read, read', done) refl

-- A pairing can be completed: a device asks for one with codes that no other has, the user approves in
-- time whatever is typed from the code that is shown, and the device comes in time for its credentials
-- under an identifier that is free. Then it gets them, and they are accepted for a device of the user
-- with the name that was asked for. Each handler starts where the limiter lets it through.
pub pairing_completes :
    (env : Env) (a b c : Request) (s : Control) (raw typed : String) (identity : Identity)
    (secret bytes id token : List ℕ)
    → (str_eq (trim_space raw) "" || ltb 160 (len (trim_space raw))) ≡ false
    → a.first_random ≡ some secret
    → a.second_random ≡ some bytes
    → length bytes ≡ 8
    → KeepsPrinted env.upper
    → (ltb (len (env.base64 secret)) 32 || ltb 256 (len (env.base64 secret))) ≡ false
    → lookup (env.hash (env.base64 secret)) s.memory.pairings ≡ none
    → lookup (hash_user_code env (human_code bytes)) s.memory.user_code ≡ none
    → to_upper env.upper (trim_space typed) ≡ human_code bytes
      ⊎ to_upper env.upper (trim_space typed) ≡ letters bytes
    → b.stored_at ≤ a.now + 600 * second
    → identity.subject ≢ ""
    → c.first_random ≡ some id
    → c.second_random ≡ some token
    → c.stored_at ≤ a.now + 600 * second
    → lookup (String.◌++◌ "dev_" (env.hex id)) s.memory.devices ≡ none
    → let s₁ = (start_decoded env a (some raw) s).1 in
      let s₂ = (approve_decoded env b (some typed) identity s₁).1 in
      let (answer, s₃) = consume_decoded env c (some (env.base64 secret)) s₂ in
      (d : Device) × (answer ≡ reply 200 (Control.issued d.id (env.base64 token)))
      × (authenticate_device env.hash d.id (env.base64 token) s₃.memory ≡ ok d)
      × (d.owner_subject ≡ identity.subject)
      × (d.name ≡ trim_space raw)
pairing_completes env a b c s raw typed identity secret bytes id token named ra ra' eight keeps
      sized free free' shown b_time subject rc rc' c_time id_free =
    let p = new_pairing env a.now (trim_space raw) (env.base64 secret) (human_code bytes) in
    let k = env.hash (env.base64 secret) in
    let m₁ = with_pairing p s.memory in
    let m₂ = with_approval b.stored_at identity.subject k p m₁ in
    let q = approved b.stored_at identity.subject p in
    let d = blank_device (String.◌++◌ "dev_" (env.hex id)) in
    let e = issued c.stored_at q d in
    let read = normalize-human_code env.upper bytes typed eight keeps shown in
    let made =
      normalize-human_code env.upper bytes (human_code bytes) eight keeps
        (inl (shown_code env.upper bytes keeps)) in
    let code : hash_user_code env (normalize env.upper typed) ≡ p.user_code_hash =
      ap (hash_user_code env) read.0 ∙ ap env.mac (read.1 ∙ sym made.0) in
    let linked : lookup (hash_user_code env (normalize env.upper typed)) m₁.user_code ≡ some k =
      ap (λ u. lookup u m₁.user_code) code
      ∙ lookup-insert_self p.user_code_hash k s.memory.user_code in
    let after = consume_pairing env.hash c.stored_at k d (env.base64 token) m₂ in
    let got : after.0 ≡ ok e =
      consume_pairing_in_time env.hash k (env.base64 token) q d m₂ c.stored_at
        (lookup-insert_self k q m₁.pairings)
        (refusal-approved p b.stored_at c.stored_at identity.subject c_time refl subject) id_free in
    let fits =
      consume_pairing-Consumes env.hash c.stored_at k d e (env.base64 token) m₂ after.1 refl
        (ap (λ x. (x, after.1)) got) in
    rw
      (
        started_when env a s raw secret bytes named ra ra' free free',
        approved_when env b (record s { memory = m₁ }) typed k identity p (ap len read.0 ∙ read.2)
            linked (lookup-insert_self k p s.memory.pairings) b_time refl,
        consumed_when env c (record s { memory = m₂ }) (env.base64 secret) id token e sized rc rc'
            got,
      )
      (e, refl, fits.accepted, refl, refl)
