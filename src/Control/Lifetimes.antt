-- ===== src/Control/Lifetimes.antt =====
-- Credentials of internal/controlplane/http.go: a device code gives a device once.
use open_remote_commander.Prelude.{
  ◌≡◌, ◌≢◌, refl, ap, sym, subst, inl, inr, String, List, Option, none, some, Result, ok, err,
  Result-cases, Option-cases, Bool-cases, len, ltb, str_eq, ◌||◌,
}
use Prim.Native.String
use mathlib.Core.Option.{some-injective}
use open_remote_commander.Store
use open_remote_commander.Store.{Device}
use open_remote_commander.Store.Memory.{Memory, consume_pairing}
use open_remote_commander.Store.Memory.Pairings.{consume_pairing_once}
use open_remote_commander.Limiter.{allow}
use open_remote_commander.Control.{
  token_rate, limit_key, Env, Control, Request, Response, consumes, issued,
}
use open_remote_commander.Control.Pairing.{
  blank_device, consume_decoded, consume_pairing_of, consume_answer,
}
use open_remote_commander.Control.Routes.{answer, handle, serve_all, cors, origin_of, is_allowed}
use open_remote_commander.Control.Driven.{serve_all-Driven}

-- What credentials in an answer go back to.
abbrev Consumed : Env → Request → Option String → Control → Response × Control → Type 0
Consumed env r body s x =
    (code : String) × (d : Device) × (e : Device) × (token : String) × (body ≡ some code)
    × (d.revoked_at ≡ none)
    × (consume_pairing env.hash r.stored_at (env.hash code) d token s.memory ≡ (ok e, x.1.memory))

refusal_gives_none :
    (e : Store.Error) (token id token' : String)
    → (consume_answer token (err e)).body ≢ issued id token'
refusal_gives_none Store.Error.not_found token id token' h = cc h
refusal_gives_none Store.Error.unauthorized token id token' h = cc h
refusal_gives_none Store.Error.pairing_pending token id token' h = cc h
refusal_gives_none Store.Error.pairing_expired token id token' h = cc h
refusal_gives_none Store.Error.pairing_used token id token' h = cc h
refusal_gives_none (Store.Error.failed message) token id token' h = cc h

module _ (env : Env) (r : Request) (id token : String) where
  consume_decoded-Consumed :
      (body : Option String) (s : Control)
      → (consume_decoded env r body s).0.body ≡ issued id token
      → Consumed env r body s (consume_decoded env r body s)
  unfolding consume_decoded
  consume_decoded-Consumed none s = λ h. cc h
  consume_decoded-Consumed (some code) s =
      elim (Bool-cases (ltb (len code) 32 || ltb 256 (len code))) [
        | inl bad ↦ rw bad (λ h. cc h)
        | inr good ↦ elim (Option-cases r.first_random) [
          | inl broken ↦ rw (good, broken) (λ h. cc h)
          | inr (a, read) ↦ elim (Option-cases r.second_random) [
            | inl broken ↦ rw (good, read, broken) (λ h. cc h)
            | inr (b, read') ↦
                let d = blank_device (String.◌++◌ "dev_" (env.hex a)) in
                let got =
                  consume_pairing env.hash r.stored_at (env.hash code) d (env.base64 b) s.memory in
                rw (good, read, read')
                  (elim (Result-cases got.0) [
                    | inr (e, refused) ↦
                        rw refused (λ h. absurd (refusal_gives_none e (env.base64 b) id token h))
                    | inl (e, fine) ↦
                        λ h. (code, d, e, env.base64 b, refl, refl, ap (λ x. (x, got.1)) fine)
                  ])
          ]
        ]
      ]

  consume_pairing_of-Consumed :
      (body : Option String) (s : Control)
      → (consume_pairing_of env r body s).0.body ≡ issued id token
      → Consumed env r body s (consume_pairing_of env r body s)
  unfolding consume_pairing_of
  consume_pairing_of-Consumed body s =
      let got = allow token_rate r.limited_at (limit_key "pair-token" r.host) s.token_buckets in
      elim (Bool-cases got.0) [
        | inl is ↦ rw is (consume_decoded-Consumed body (record s { token_buckets = got.1 }))
        | inr busy ↦ rw busy (λ h. cc h)
      ]

  handle-Consumed :
      (body : Option String) (s : Control)
      → r.route ≡ consumes body
      → (handle env r s).0.body ≡ issued id token
      → Consumed env r body s (handle env r s)
  unfolding handle answer cors
  handle-Consumed body s at = rw at (elim (Bool-cases (str_eq (origin_of r) "")) [
    | inl plain ↦ rw plain (consume_pairing_of-Consumed body s)
    | inr given ↦ elim (Bool-cases (is_allowed (origin_of r) env.origins)) [
      | inl known ↦ rw (given, known) (consume_pairing_of-Consumed body s)
      | inr foreign ↦ rw (given, foreign) (λ h. cc h)
    ]
  ])

-- A device code is good for one device: once it was answered with credentials, no request with the
-- same device code is answered with credentials again, whatever requests come between them and
-- whenever it comes.
pub credentials_once :
    (env : Env) (r later : Request) (rs : List Request) (s : Control)
    (code id token id' token' : String)
    → r.route ≡ consumes (some code)
    → later.route ≡ consumes (some code)
    → (handle env r s).0.body ≡ issued id token
    → (handle env later (serve_all env rs (handle env r s).1)).0.body ≢ issued id' token'
credentials_once env r later rs s code id token id' token' at at' got again =
    let (c, d, e, t, same, live, done) = handle-Consumed env r id token (some code) s at got in
    let after = serve_all env rs (handle env r s).1 in
    let (c', d', e', t', same', live', done') =
      handle-Consumed env later id' token' (some code) after at' again in
    let (cs, driven) = serve_all-Driven env rs (handle env r s).1 in
    let k = env.hash code in
    let first : consume_pairing env.hash r.stored_at k d t s.memory
        ≡ (ok e, (handle env r s).1.memory) =
      subst
        (λ (x : String).
          consume_pairing env.hash r.stored_at (env.hash x) d t s.memory
          ≡ (ok e, (handle env r s).1.memory))
        (sym (some-injective code c same)) done in
    let second : (consume_pairing env.hash later.stored_at k d' t' after.memory).0 ≡ ok e' =
      subst
        (λ (x : String).
          (consume_pairing env.hash later.stored_at (env.hash x) d' t' after.memory).0 ≡ ok e')
        (sym (some-injective code c' same'))
        (ap (λ (x : Result Store.Error Device × Memory). x.0) done') in
    consume_pairing_once env.hash r.stored_at later.stored_at k d e d' e' t t' s.memory
      (handle env r s).1.memory cs live first
      (subst (λ (m : Memory). (consume_pairing env.hash later.stored_at k d' t' m).0 ≡ ok e')
        (sym driven) second)
