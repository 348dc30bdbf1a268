-- ===== src/Search/Paging.antt =====
-- GetMore of internal/searchmgr/manager.go, called while the search goes on.
use open_remote_commander.Prelude.{
  ◌+◌, ◌≤◌, ◌≡◌, sym, ap, ◌∙◌, true, List, [], ◌∷◌, ◌++◌, append-nil, append_assoc, arith, Option,
  length, length-append, take, take-drop-take, take-append_le, take-of_length_le, ltb, Bool-cases,
  inl, inr, String,
}
use open_remote_commander.Prelude.Int.{ℤ}
use open_remote_commander.Search.{Match, Session, new_session, more, clamp}

-- What happens to a session: the walk adds a match, the search ends, or a caller asks for more.
pub data Event : Type 0 where
  adds : Match → Event
  ends : Option String → Event
  asks : ℤ → Event

-- The session after the event, and what the caller is given.
abbrev pub happen : Event → Session → List Match × Session
happen (adds v) s = ([], record s { results = s.results ++ v ∷ [] })
happen (ends e) s = ([], record s { done = true; error = e })
happen (asks n) s = ((more n s).0.results, (more n s).1)

-- All that the callers were given, in order, and the session at the end.
unfoldable pub history : List Event → Session → List Match × Session
history [] s = ([], s)
history (e ∷ es) s = let rest = history es (happen e s).1 in ((happen e s).0 ++ rest.0, rest.1)

abbrev IsPaged : Session → Type 0
IsPaged s = s.next ≤ length s.results

more_lem :
    (n : ℤ) (s : Session)
    → IsPaged s
    → IsPaged (more n s).1
      × (take s.next s.results ++ (more n s).0.results ≡ take (more n s).1.next s.results)
unfolding more
more_lem n s paged = elim (Bool-cases (ltb (length s.results) (s.next + clamp 100 500 n))) [
  | inl short ↦ rw short (omega arith, take-drop-take s.next (length s.results) s.results paged)
  | inr long ↦ rw long (
    ground (arith, long),
    take-drop-take s.next (s.next + clamp 100 500 n) s.results (omega arith),
  )
]

more-done :
    (n : ℤ) (s : Session)
    → (more n s).0.done ≡ true
    → (s.done ≡ true) × (length s.results ≤ (more n s).1.next)
unfolding more
more-done n s h = ground (arith, h)

happen_lem :
    (e : Event) (s : Session)
    → IsPaged s
    → IsPaged (happen e s).1
      × (take s.next s.results ++ (happen e s).0 ≡ take (happen e s).1.next (happen e s).1.results)
unfolding more
happen_lem (adds v) s paged = (
  omega (arith, paged, length-append s.results (v ∷ [])),
  append-nil (take s.next s.results) ∙ sym (take-append_le s.next s.results (v ∷ []) paged),
)
happen_lem (ends e) s paged = (paged, append-nil (take s.next s.results))
happen_lem (asks n) s paged = more_lem n s paged

history_lem :
    (es : List Event) (s : Session)
    → IsPaged s
    → IsPaged (history es s).1
      × (take s.next s.results ++ (history es s).0
          ≡ take (history es s).1.next (history es s).1.results)
unfolding history
history_lem [] s paged = (paged, append-nil (take s.next s.results))
history_lem (e ∷ es) s paged =
    let (paged', one) = happen_lem e s paged in
    let (last_paged, others) = history_lem es (happen e s).1 paged' in
    (
      last_paged,
      sym (append_assoc (take s.next s.results) (happen e s).0 (history es (happen e s).1).0)
          ∙ ap (λ xs. xs ++ (history es (happen e s).1).0) one
          ∙ others,
    )

-- However the calls fall among the additions of the walk, what GetMore has given from the start is
-- always a front of the results: the pages follow each other without a gap or a repetition.
pub pages_lem :
    (es : List Event)
    → (history es new_session).0
      ≡ take (history es new_session).1.next (history es new_session).1.results
pages_lem es = (history_lem es new_session (omega arith)).1

-- When GetMore says that the search is done, it is, and the pages up to this one are all its results.
pub done_complete :
    (es : List Event) (n : ℤ)
    → (more n (history es new_session).1).0.done ≡ true
    → ((history es new_session).1.done ≡ true)
      × ((history es new_session).0 ++ (more n (history es new_session).1).0.results
          ≡ (history es new_session).1.results)
done_complete es n done =
    let t = (history es new_session).1 in
    let (paged, given) = history_lem es new_session (omega arith) in
    let (is_done, reached) = more-done n t done in
    (
      is_done,
      ap (λ xs. xs ++ (more n t).0.results) given
          ∙ (more_lem n t paged).1
          ∙ take-of_length_le (more n t).1.next t.results reached,
    )
