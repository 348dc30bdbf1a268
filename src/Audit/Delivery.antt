-- ===== src/Audit/Delivery.antt =====
-- What the queue of internal/audit/writer.go does with the events.
use open_remote_commander.Prelude.{
  suc, ◌≤◌, ◌≡◌, refl, sym, ap, subst, ◌∙◌, List, [], ◌∷◌, ◌++◌, append-nil, append_assoc, arith,
  length, length-append, ltb, if◌then◌else◌, Bool-cases, inl, inr,
}
use open_remote_commander.Prelude.Int.{ℤ}
use open_remote_commander.Store.{AuditEvent}
use open_remote_commander.Audit.{
  Writer, new_writer, enqueue, send_first, Step, records, drops, cancels, sends, turns, drains,
  returns, Reach, here, next,
}

-- The queued events are those that were sent and those that wait, in order, and the queue is bounded.
pub record IsInOrder (queued : List AuditEvent) (w : Writer) : Type 0 where
  pub order : w.sent ++ w.queue ≡ queued
  pub bounded : length w.queue ≤ w.capacity

enqueue-IsInOrder :
    (queued : List AuditEvent) (e : AuditEvent) (w : Writer)
    → IsInOrder queued w
    → IsInOrder (queued ++ (if (enqueue e w).0 then e ∷ [] else [])) (enqueue e w).1
unfolding enqueue
enqueue-IsInOrder queued e w v = elim (Bool-cases (ltb (length w.queue) w.capacity)) [
  | inl room ↦
      rw (room, enqueue)
        (record {
          order = sym (append_assoc w.sent w.queue (e ∷ [])) ∙ ap (λ t. t ++ e ∷ []) v.order;
          bounded = ground (arith, room, length-append w.queue (e ∷ []));
        })
  | inr full ↦
      rw (full, enqueue) (record { order = v.order ∙ sym (append-nil queued); bounded = v.bounded })
]

send_first-IsInOrder :
    (queued : List AuditEvent) (e : AuditEvent) (es : List AuditEvent) (w : Writer)
    → w.queue ≡ e ∷ es
    → IsInOrder queued w
    → IsInOrder (queued ++ []) (send_first e es w)
send_first-IsInOrder queued e es w first v = record {
  order =
      append_assoc w.sent (e ∷ []) es
      ∙ ap (λ t. w.sent ++ t) (sym first)
      ∙ v.order
      ∙ sym (append-nil queued);
  bounded =
      let shorter : length w.queue ≡ suc (length es) = ap length first in
      omega (arith, shorter, v.bounded);
}

-- Nothing is queued or sent.
same-IsInOrder :
    (queued : List AuditEvent) (w : Writer) → IsInOrder queued w → IsInOrder (queued ++ []) w
same-IsInOrder queued w v = record {
  order = v.order ∙ sym (append-nil queued);
  bounded = v.bounded;
}

Step-IsInOrder :
    {w u : Writer} {fs : List AuditEvent} (queued : List AuditEvent)
    → Step w fs u
    → IsInOrder queued w
    → IsInOrder (queued ++ fs) u
Step-IsInOrder {w} queued (records e room) v =
    subst (λ b. IsInOrder (queued ++ (if b then e ∷ [] else [])) (enqueue e w).1) room
      (enqueue-IsInOrder queued e w v)
Step-IsInOrder {w} queued (drops e full) v =
    subst (λ b. IsInOrder (queued ++ (if b then e ∷ [] else [])) (enqueue e w).1) full
      (enqueue-IsInOrder queued e w v)
Step-IsInOrder {w} queued cancels v = record {
  order = v.order ∙ sym (append-nil queued);
  bounded = v.bounded;
}
Step-IsInOrder {w} queued (sends e es phase first) v = send_first-IsInOrder queued e es w first v
Step-IsInOrder {w} queued (turns phase done) v = record {
  order = v.order ∙ sym (append-nil queued);
  bounded = v.bounded;
}
Step-IsInOrder {w} queued (drains e es phase first) v = send_first-IsInOrder queued e es w first v
Step-IsInOrder {w} queued (returns phase empty) v = record {
  order = v.order ∙ sym (append-nil queued);
  bounded = v.bounded;
}

new_writer-IsInOrder : (n : ℤ) → IsInOrder [] (new_writer n)
unfolding new_writer
new_writer-IsInOrder n = record { order = refl; bounded = omega arith }

-- In every state that a new writer comes to, the events that Record queued are, in their order and
-- each once, those that the store was given and behind them those that wait; and no more wait than the
-- capacity allows.
pub queued-IsInOrder :
    (n : ℤ) (queued : List AuditEvent) (w : Writer)
    → Reach (new_writer n) queued w
    → IsInOrder queued w
queued-IsInOrder n queued w here = new_writer-IsInOrder n
queued-IsInOrder n queued w (next r st) = Step-IsInOrder _ st (queued-IsInOrder n _ _ r)
