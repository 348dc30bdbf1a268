-- ===== src/Control/Owners.antt =====
-- Whose devices the control plane hands out: those of the users that approved a pairing.
use open_remote_commander.Prelude.{
  ◌≡◌, refl, sym, subst, ap, ◌∙◌, inl, inr, String, List, [], ◌∷◌, ◌++◌, append_assoc, append-nil,
  eq_iff, subst₂, ok, lookup, Option-cases, All-lookup, arith,
}
use open_remote_commander.Store.{Device}
use open_remote_commander.Store.Memory.{Memory, new_memory, authenticate_device}
use open_remote_commander.Control.{Env, Control, Request}
use open_remote_commander.Control.Routes.{handle, serve_all}
use open_remote_commander.Control.Provenance.{IsApproved, IsPaired}
use open_remote_commander.Control.Owned.{
  All-imp, HasOwner, IsOwned, Owned, Rules, pairing_owner, handle-Owned,
}

serve_all-append_one :
    (env : Env) (rs : List Request) (r : Request) (s : Control)
    → serve_all env (rs ++ r ∷ []) s ≡ (handle env r (serve_all env rs s)).1
unfolding serve_all
serve_all-append_one env [] r s = refl
serve_all-append_one env (x ∷ rs) r s = serve_all-append_one env rs r (handle env x s).1

split_on :
    (before : List Request) (x : Request) (after rs : List Request) (r : Request)
    → before ++ x ∷ after ≡ rs
    → before ++ x ∷ (after ++ r ∷ []) ≡ rs ++ r ∷ []
split_on before x after rs r h =
    sym (append_assoc before (x ∷ after) (r ∷ [])) ∙ ap (λ xs. xs ++ r ∷ []) h

module _ (env : Env) (s : Control) where
  IsApproved-later :
      (rs : List Request) (r : Request) (k subject : String)
      → IsApproved env s rs k subject
      → IsApproved env s (rs ++ r ∷ []) k subject
  IsApproved-later rs r k subject a = record {
    before = a.before;
    request = a.request;
    after = a.after ++ r ∷ [];
    split = split_on a.before a.request a.after rs r a.split;
    approval = a.approval;
  }

  IsPaired-later :
      (rs : List Request) (r : Request) (id subject hash : String)
      → IsPaired env s rs id subject hash
      → IsPaired env s (rs ++ r ∷ []) id subject hash
  IsPaired-later rs r id subject hash a = record {
    before = a.before;
    request = a.request;
    after = a.after ++ r ∷ [];
    split = split_on a.before a.request a.after rs r a.split;
    key = a.key;
    approved_before = a.approved_before;
    issue = a.issue;
  }

  -- Every owner in the store comes of the requests.
  abbrev IsAccounted : List Request → Memory → Type 0
  IsAccounted rs m = Owned (IsApproved env s rs) (IsPaired env s rs) m

  IsAccounted-later :
      (rs : List Request) (r : Request) (m : Memory)
      → IsAccounted rs m
      → IsAccounted (rs ++ r ∷ []) m
  IsAccounted-later rs r m o =
      let Q = IsApproved env s in
      let R = IsPaired env s in
      let rs' = rs ++ r ∷ [] in
      (
        All-imp (HasOwner (Q rs) (R rs)) (HasOwner (Q rs') (R rs'))
            (λ e f h. IsApproved-later rs r e.0 e.1.owner_subject (f h)) m.pairings o.0,
        All-imp (IsOwned (Q rs) (R rs)) (IsOwned (Q rs') (R rs'))
            (λ e f. IsPaired-later rs r e.0 e.1.device.owner_subject e.1.token_hash f) m.devices
            o.1,
      )

  -- What the next request does is accounted for.
  next_rules :
      (rs : List Request) (r : Request)
      → IsAccounted rs (serve_all env rs s).memory
      → Rules
          (IsApproved env s (rs ++ r ∷ []))
          (IsPaired env s (rs ++ r ∷ []))
          env
          r
          (serve_all env rs s)
  next_rules rs r o = (
    λ k subject a. record { before = rs; request = r; after = []; split = refl; approval = a },
    λ k id subject hash i. record {
      before = rs;
      request = r;
      after = [];
      split = refl;
      key = k;
      approved_before = subst (IsApproved env s rs k) i.is_owner (
          pairing_owner (IsApproved env s rs) (IsPaired env s rs) k i.pairing
            (serve_all env rs s).memory r.stored_at i.found i.is_open o);
      issue = i;
    },
  )

  handle-IsAccounted :
      (rs : List Request) (r : Request)
      → IsAccounted rs (serve_all env rs s).memory
      → IsAccounted (rs ++ r ∷ []) (serve_all env (rs ++ r ∷ []) s).memory
  handle-IsAccounted rs r o =
      subst (λ (x : Control). IsAccounted (rs ++ r ∷ []) x.memory)
        (sym (serve_all-append_one env rs r s))
        (handle-Owned (IsApproved env s (rs ++ r ∷ [])) (IsPaired env s (rs ++ r ∷ [])) env r
          (serve_all env rs s) (next_rules rs r o)
          (IsAccounted-later rs r (serve_all env rs s).memory o))

  serve_all-IsAccounted :
      (done rs : List Request)
      → IsAccounted done (serve_all env done s).memory
      → IsAccounted (done ++ rs) (serve_all env (done ++ rs) s).memory
  serve_all-IsAccounted done [] o =
      subst (λ xs. IsAccounted xs (serve_all env xs s).memory) (sym (append-nil done)) o
  serve_all-IsAccounted done (r ∷ rs) o =
      subst (λ xs. IsAccounted xs (serve_all env xs s).memory) (append_assoc done (r ∷ []) rs)
        (serve_all-IsAccounted (done ++ r ∷ []) rs (handle-IsAccounted done r o))

-- A device that is accepted with a token, after requests to a control plane whose store was empty:
-- one of the requests was answered with the device's identifier and a token of the same hash, for the
-- device code of a pairing that belonged to the device's owner. An earlier request had approved that
-- pairing: it carried an access token that the verifier accepted for that owner with the scope
-- orc:tools, and the pairing's user code, in time and before the pairing was used; it was answered 200
-- and the store held the pairing as approved for that owner.
pub owner-IsPaired :
    (env : Env) (rs : List Request) (s : Control) (id token : String) (d : Device)
    → s.memory ≡ new_memory
    → authenticate_device env.hash id token (serve_all env rs s).memory ≡ ok d
    → IsPaired env s rs id d.owner_subject (env.hash token)
unfolding authenticate_device serve_all
owner-IsPaired env rs s id token d fresh accepted =
    let m = (serve_all env rs s).memory in
    let o : IsAccounted env s rs m =
      serve_all-IsAccounted env s [] rs (subst (IsAccounted env s []) (sym fresh) (tt, tt)) in
    elim (Option-cases (lookup id m.devices)) [
      | inl missing ↦ ground (arith, missing, accepted)
      | inr (e, at) ↦
          let same : e.device ≡ d = ground (arith, at, accepted) in
          let hashed : e.token_hash ≡ env.hash token =
            ground (arith, at, accepted, eq_iff e.token_hash (env.hash token)) in
          subst₂ (λ (x : Device) h. IsPaired env s rs id x.owner_subject h) same hashed
            (All-lookup (IsOwned (IsApproved env s rs) (IsPaired env s rs)) id e m.devices o.1 at)
    ]
