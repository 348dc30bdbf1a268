-- ===== src/Store/Memory/Audit.antt =====
-- The audit log of the in-memory store: a bounded suffix of the events written.
use open_remote_commander.Prelude.{
  ℕ, ◌+◌, ◌-◌, ◌≤◌, ◌<◌, ◌≡◌, ◌≢◌, refl, sym, ap, ◌∙◌, inl, inr, List, [], ◌∷◌, ◌++◌, leb, arith,
  length, drop, Bool-cases, length-append, length-drop, drop-append_le, take-append_le,
  take-of_length_le, drop-drop, append-nil, append_assoc,
}
use open_remote_commander.Store.{AuditEvent}
use open_remote_commander.Store.Memory.{
  Memory, new_memory, write_audit, halve_audit, audit_cap, audit_kept,
}

-- Writing a list of events, oldest first.
pub write_events : List AuditEvent → Memory → Memory
write_events [] m = m
write_events (e ∷ es) m = write_events es (write_audit e m)

halve_audit_lem :
    (es : List AuditEvent)
    → audit_kept ≤ length es
    → halve_audit es ≡ drop (length es - audit_kept) es
unfolding halve_audit
halve_audit_lem es h =
    let n : ℕ = length es - audit_kept in
    take-append_le audit_kept (drop n es) _ (omega (arith, length-drop n es))
    ∙ take-of_length_le audit_kept (drop n es) (omega (arith, length-drop n es))

-- The log is `all` without its first `lost` events, within its bound, and events are lost only past
-- the bound and leave more than `audit_kept`.
pub record IsTail (lost : ℕ) (all : List AuditEvent) (m : Memory) : Type 0 where
  pub kept : m.audit ≡ drop lost all
  pub bounded : length m.audit ≤ audit_cap
  pub counted : lost ≤ length all
  pub past_cap : lost ≢ 0 → audit_cap < length all
  pub enough : lost ≢ 0 → audit_kept < length m.audit

append-drop :
    (n : ℕ) (all : List AuditEvent) (e : AuditEvent)
    → n ≤ length all
    → drop n all ++ e ∷ [] ≡ drop n (all ++ e ∷ [])
append-drop n all e h = sym (drop-append_le n all (e ∷ []) h)

full-IsTail :
    (lost : ℕ) (all : List AuditEvent) (m : Memory) (e : AuditEvent)
    → audit_cap ≤ length m.audit
    → IsTail lost all m
    → IsTail
        (lost + (length m.audit - audit_kept))
        (all ++ e ∷ [])
        (record m { audit = halve_audit m.audit ++ e ∷ [] })
full-IsTail lost all m e full v =
    let n : ℕ = length m.audit - audit_kept in
    let size : length m.audit ≡ length all - lost = ap length v.kept ∙ length-drop lost all in
    let half : halve_audit m.audit ≡ drop n m.audit = halve_audit_lem m.audit (omega arith) in
    let left : length (halve_audit m.audit) ≡ length m.audit - n =
      ap length half ∙ length-drop n m.audit in
    record {
      kept =
          ap (λ (es : List AuditEvent). es ++ e ∷ [])
            (half ∙ ap (drop n) v.kept ∙ drop-drop n lost all)
          ∙ append-drop (lost + n) all e (omega (arith, size, v.counted));
      bounded = omega (arith, left, length-append (halve_audit m.audit) (e ∷ []));
      counted = omega (arith, size, v.counted, length-append all (e ∷ []));
      past_cap = λ _. omega (arith, size, v.counted, length-append all (e ∷ []));
      enough = λ _. omega (arith, left, length-append (halve_audit m.audit) (e ∷ []));
    }

room-IsTail :
    (lost : ℕ) (all : List AuditEvent) (m : Memory) (e : AuditEvent)
    → length m.audit < audit_cap
    → IsTail lost all m
    → IsTail lost (all ++ e ∷ []) (record m { audit = m.audit ++ e ∷ [] })
room-IsTail lost all m e room v = record {
  kept = ap (λ (es : List AuditEvent). es ++ e ∷ []) v.kept ∙ append-drop lost all e v.counted;
  bounded = omega (arith, length-append m.audit (e ∷ []));
  counted = omega (arith, v.counted, length-append all (e ∷ []));
  past_cap = λ h. omega (arith, v.past_cap h, length-append all (e ∷ []));
  enough = λ h. omega (arith, v.enough h, length-append m.audit (e ∷ []));
}

write_audit-IsTail :
    (lost : ℕ) (all : List AuditEvent) (m : Memory) (e : AuditEvent)
    → IsTail lost all m
    → (lost' : ℕ) × IsTail lost' (all ++ e ∷ []) (write_audit e m)
unfolding write_audit
write_audit-IsTail lost all m e v = elim (Bool-cases (leb audit_cap (length m.audit))) [
  | inl full ↦
      (lost + (length m.audit - audit_kept), rw full (full-IsTail lost all m e (ground arith) v))
  | inr room ↦ (lost, rw room (room-IsTail lost all m e (ground arith) v))
]

write_events-IsTail :
    (lost : ℕ) (all es : List AuditEvent) (m : Memory)
    → IsTail lost all m
    → (lost' : ℕ) × IsTail lost' (all ++ es) (write_events es m)
unfolding write_events
write_events-IsTail lost all [] m v = (lost, rw (append-nil all) v)
write_events-IsTail lost all (e ∷ es) m v =
    let (lost', v') = write_audit-IsTail lost all m e v in
    rw (← append_assoc all (e ∷ []) es)
      (write_events-IsTail lost' (all ++ e ∷ []) es (write_audit e m) v')

-- Whatever is written to a new store, the log holds the most recent events in order and at most
-- 10000 of them. It loses none before that many are written, and then keeps more than 5000.
pub write_events_lem :
    (es : List AuditEvent) → (lost : ℕ) × IsTail lost es (write_events es new_memory)
write_events_lem es = write_events-IsTail 0 [] es new_memory (record {
  kept = refl;
  bounded = omega arith;
  counted = omega arith;
  past_cap = λ h. absurd (h refl);
  enough = λ h. absurd (h refl);
})
