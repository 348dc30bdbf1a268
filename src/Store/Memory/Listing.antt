-- ===== src/Store/Memory/Listing.antt =====
-- `ListDevices` against `GetDevice`.
use open_remote_commander.Prelude.{
  ℕ, ◌≤◌, ◌≡◌, sym, ap, ◌∙◌, ◌⊎◌, ◌↔◌, inl, inr, String, true, List, [], ◌∷◌, none, some, Map, ok,
  str_eq, ltb, arith, lookup, insert, eq_iff, Bool-cases, Option-cases, Distinct, insert-Distinct,
}
use open_remote_commander.Store.{Device}
use open_remote_commander.Store.Memory.Cases.{
  create_device_cases, touch_device_cases, revoke_device_cases, create_pairing_cases,
  approve_pairing_cases, consume_pairing_cases,
}
use open_remote_commander.Store.Memory.{
  Memory, MemoryDevice, new_memory, get_device, list_devices, owned_devices, insert_by_age,
  sort_by_age, is_owned, write_audit, step, run, Call, creates_device, touches, revokes, audits,
  creates_pairing, approves, consumes,
}

abbrev pub In : Device → List Device → Type 0
In d [] = ⊥
In d (e ∷ es) = (d ≡ e) ⊎ In d es

-- Oldest first.
abbrev pub ByAge : List Device → Type 0
ByAge [] = Unit
ByAge (d ∷ []) = Unit
ByAge (d ∷ e ∷ es) = (d.created_at ≤ e.created_at) × ByAge (e ∷ es)

insert_by_age-ByAge : (d : Device) (es : List Device) → ByAge es → ByAge (insert_by_age d es)
unfolding insert_by_age
insert_by_age-ByAge d [] h = tt
insert_by_age-ByAge d (e ∷ []) h = ground arith
insert_by_age-ByAge d (e ∷ f ∷ es) h = ground (arith, insert_by_age-ByAge d (f ∷ es) h.1)

sort_by_age-ByAge : (ds : List Device) → ByAge (sort_by_age ds)
unfolding sort_by_age
sort_by_age-ByAge [] = tt
sort_by_age-ByAge (d ∷ ds) = insert_by_age-ByAge d (sort_by_age ds) (sort_by_age-ByAge ds)

-- Membership past a head that stays in front.
past_head :
    (x d e : Device) (es fs : List Device)
    → (In x fs ↔ ((x ≡ d) ⊎ In x es))
    → ((x ≡ e) ⊎ In x fs) ↔ ((x ≡ d) ⊎ ((x ≡ e) ⊎ In x es))
past_head x d e es fs (to, from) = (
  elim [ inl here ↦ inr (inl here) | inr h ↦ elim (to h) [ inl u ↦ inl u | inr u ↦ inr (inr u) ] ],
  elim [
    | inl u ↦ inr (from (inl u))
    | inr t ↦ elim t [ inl here ↦ inl here | inr h ↦ inr (from (inr h)) ]
  ],
)

In-insert_by_age :
    (x d : Device) (es : List Device) → In x (insert_by_age d es) ↔ ((x ≡ d) ⊎ In x es)
unfolding insert_by_age
In-insert_by_age x d [] = (λ h. h, λ h. h)
In-insert_by_age x d (e ∷ es) = elim (Bool-cases (ltb e.created_at d.created_at)) [
  | inl later ↦ rw later (past_head x d e es (insert_by_age d es) (In-insert_by_age x d es))
  | inr sooner ↦ rw sooner (λ h. h, λ h. h)
]

In-sort_by_age : (x : Device) (ds : List Device) → In x (sort_by_age ds) ↔ In x ds
unfolding sort_by_age
In-sort_by_age x [] = (λ h. h, λ h. h)
In-sort_by_age x (d ∷ ds) =
    let (to, from) = In-sort_by_age x ds in
    let (to', from') = In-insert_by_age x d (sort_by_age ds) in
    (
      λ h. elim (to' h) [ inl u ↦ inl u | inr u ↦ inr (to u) ],
      λ h. from' (elim h [ inl u ↦ inl u | inr u ↦ inr (from u) ]),
    )

-- The entry of a device that is owned by `owner`, not revoked and stored under its identifier.
abbrev Entry : String → Device → Map MemoryDevice → Type 0
Entry owner d ds =
    (e : MemoryDevice) × (lookup d.id ds ≡ some e) × (is_owned owner e ≡ true) × (e.device ≡ d)

-- Every device stands under its own identifier.
abbrev pub Keyed : Map MemoryDevice → Type 0
Keyed [] = Unit
Keyed ((k, d) ∷ ds) = (d.device.id ≡ k) × Keyed ds

Entry-tail :
    (owner : String) (d : Device) (k : String) (e : MemoryDevice) (ds : Map MemoryDevice)
    → lookup k ds ≡ none
    → Entry owner d ds
    → Entry owner d ((k, e) ∷ ds)
unfolding lookup
Entry-tail owner d k e ds free (f, at, own, same) =
    (f, ground (arith, free, at, eq_iff k d.id), own, same)

owned_devices-Entry :
    (owner : String) (d : Device) (ds : Map MemoryDevice)
    → Keyed ds
    → Distinct ds
    → In d (owned_devices owner ds)
    → Entry owner d ds
unfolding owned_devices lookup
owned_devices-Entry owner d [] keys uniq h = absurd h
owned_devices-Entry owner d ((k, e) ∷ ds) keys uniq h = elim (Bool-cases (is_owned owner e)) [
  | inr alien ↦
      Entry-tail owner d k e ds uniq.0
        (owned_devices-Entry owner d ds keys.1 uniq.1 (rw (alien, owned_devices) at h))
  | inl own ↦
      let split : (d ≡ e.device) ⊎ In d (owned_devices owner ds) = rw (own, owned_devices) at h in
      elim split [
        | inl first ↦ (e, ground (arith, first, keys, eq_iff k d.id), own, sym first)
        | inr rest ↦
            Entry-tail owner d k e ds uniq.0 (owned_devices-Entry owner d ds keys.1 uniq.1 rest)
      ]
]

Entry-In :
    (owner : String) (d : Device) (ds : Map MemoryDevice)
    → Entry owner d ds
    → In d (owned_devices owner ds)
unfolding owned_devices lookup
Entry-In owner d [] (f, at, own, same) = absurd (ground (arith, at))
Entry-In owner d ((k, e) ∷ ds) (f, at, own, same) = elim (Bool-cases (str_eq k d.id)) [
  | inl here ↦
      let first : e ≡ f = ground (arith, at, here) in
      let own' : is_owned owner e ≡ true = ap (is_owned owner) first ∙ own in
      rw (own', owned_devices) (inl (sym same ∙ ap (λ (x : MemoryDevice). x.device) (sym first)))
  | inr there ↦
      let rest : In d (owned_devices owner ds) =
        Entry-In owner d ds (f, ground (arith, at, there), own, same) in
      elim (Bool-cases (is_owned owner e)) [
        | inl own' ↦ rw (own', owned_devices) (inr rest)
        | inr alien ↦ rw (alien, owned_devices) rest
      ]
]

get_device-Entry :
    (owner : String) (d : Device) (m : Memory)
    → (get_device owner d.id m ≡ ok d) ↔ Entry owner d m.devices
unfolding get_device
get_device-Entry owner d m = (to, from)
  where
    to : get_device owner d.id m ≡ ok d → Entry owner d m.devices
    to h = elim (Option-cases (lookup d.id m.devices)) [
      | inl e ↦ absurd (ground (arith, e, h))
      | inr (f, e) ↦ (f, e, ground (arith, e, h), ground (arith, e, h))
    ]

    from : Entry owner d m.devices → get_device owner d.id m ≡ ok d
    from (f, at, own, same) = ground (arith, at, own, same)

insert-Keyed :
    (k : String) (d : MemoryDevice) (ds : Map MemoryDevice)
    → d.device.id ≡ k
    → Keyed ds
    → Keyed (insert k d ds)
unfolding insert
insert-Keyed k d [] e h = (e, tt)
insert-Keyed k d ((j, f) ∷ ds) e h = elim (Bool-cases (str_eq j k)) [
  | inl same ↦ rw (same, insert) (e, h.1)
  | inr other ↦ rw (other, insert) (h.0, insert-Keyed k d ds e h.1)
]

lookup-Keyed :
    (k : String) (d : MemoryDevice) (ds : Map MemoryDevice)
    → Keyed ds
    → lookup k ds ≡ some d
    → d.device.id ≡ k
unfolding lookup
lookup-Keyed k d [] h e = cc
lookup-Keyed k d ((j, f) ∷ ds) h e = ground (arith, lookup-Keyed k d ds h.1, h.0, eq_iff j k)

pub record IsKeyed (ds : Map MemoryDevice) : Type 0 where
  pub keyed : Keyed ds
  pub distinct : Distinct ds

insert-IsKeyed :
    (k : String) (d : MemoryDevice) (ds : Map MemoryDevice)
    → d.device.id ≡ k
    → IsKeyed ds
    → IsKeyed (insert k d ds)
insert-IsKeyed k d ds e v = record {
  keyed = insert-Keyed k d ds e v.keyed;
  distinct = insert-Distinct k d ds v.distinct;
}

step-IsKeyed :
    (hash : String → String) (m : Memory) (now : ℕ) (c : Call)
    → IsKeyed m.devices
    → IsKeyed (step hash m (now, c)).devices
unfolding step write_audit
step-IsKeyed hash m now (creates_device f token) v =
    create_device_cases (λ r. IsKeyed r.1.devices) m (λ _. v) hash now f token
      (λ _. insert-IsKeyed f.id _ m.devices (ground arith) v)
step-IsKeyed hash m now (touches k) v =
    touch_device_cases (λ r. IsKeyed r.1.devices) m (λ _. v) now k
      (λ d at. insert-IsKeyed k _ m.devices (lookup-Keyed k d m.devices v.keyed at) v)
step-IsKeyed hash m now (revokes owner k) v =
    revoke_device_cases (λ r. IsKeyed r.1.devices) m (λ _. v) now owner k
      (λ d at _. insert-IsKeyed k _ m.devices (lookup-Keyed k d m.devices v.keyed at) v)
step-IsKeyed hash m now (audits e) v = v
step-IsKeyed hash m now (creates_pairing p) v =
    create_pairing_cases (λ r. IsKeyed r.1.devices) m (λ _. v) p (λ _ _. v)
step-IsKeyed hash m now (approves code owner) v =
    approve_pairing_cases (λ r. IsKeyed r.1.devices) m (λ _. v) now code owner (λ _ _ _ _. v)
step-IsKeyed hash m now (consumes k f token) v =
    consume_pairing_cases (λ r. IsKeyed r.1.devices) m (λ _. v) hash now k f token
      (λ _ _ _ _. insert-IsKeyed f.id _ m.devices (ground arith) v)

run-IsKeyed :
    (hash : String → String) (m : Memory) (cs : List (ℕ × Call))
    → IsKeyed m.devices
    → IsKeyed (run hash m cs).devices
unfolding run
run-IsKeyed hash m [] v = v
run-IsKeyed hash m ((now, c) ∷ cs) v =
    run-IsKeyed hash (step hash m (now, c)) cs (step-IsKeyed hash m now c v)

-- After any calls on a new store, a subject's list is in order of age and holds exactly the devices
-- that `GetDevice` gives that subject.
pub list_devices_lem :
    (hash : String → String) (owner : String) (cs : List (ℕ × Call))
    → ByAge (list_devices owner (run hash new_memory cs))
      × ((d : Device)
          → In d (list_devices owner (run hash new_memory cs))
            ↔ (get_device owner d.id (run hash new_memory cs) ≡ ok d))
unfolding list_devices
list_devices_lem hash owner cs =
    let m : Memory = run hash new_memory cs in
    let v : IsKeyed m.devices =
      run-IsKeyed hash new_memory cs (record { keyed = tt; distinct = tt }) in
    (
      sort_by_age-ByAge (owned_devices owner m.devices),
      λ d.
          let (to, from) = In-sort_by_age d (owned_devices owner m.devices) in
          let (seen, held) = get_device-Entry owner d m in
          (
            λ h. held (owned_devices-Entry owner d m.devices v.keyed v.distinct (to h)),
            λ h. from (Entry-In owner d m.devices (seen h)),
          ),
    )
