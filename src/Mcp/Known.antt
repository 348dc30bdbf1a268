-- ===== src/Mcp/Known.antt =====
-- The tools that the server offers for devices, and those that the agent on a device has.
use open_remote_commander.Prelude.{
  ◌≡◌, refl, sym, ◌∙◌, ◌&&◌, subst, String, Bool, true, false, is_some, List, [], ◌∷◌, none, some,
  str_eq, eq_iff, arith, Bool-cases, inl, inr,
}
use open_remote_commander.Executor.Tools.{Handler, tool_handlers, handler_in, handler_of}
use open_remote_commander.Mcp.Tools.{
  tool_specs, mentions, remote_from, remote_tool_set, known_remote_tool,
}

-- Every name of the first list is in the second.
unfoldable subset : List String → List String → Bool
subset [] names = true
subset (n ∷ ns) names = mentions n names && subset ns names

mentions-subset :
    (name : String) (small large : List String)
    → subset small large ≡ true
    → mentions name small ≡ true
    → mentions name large ≡ true
unfolding mentions subset
mentions-subset name [] large s h = cc
mentions-subset name (n ∷ ns) large s h = elim (Bool-cases (str_eq n name)) [
  | inl same ↦ subst (λ k. mentions k large ≡ true) ((eq_iff n name).0 same) (ground arith)
  | inr other ↦ mentions-subset name ns large (ground arith) (ground arith)
]

abbrev handled : List (String × Handler) → List String
handled [] = []
handled ((name, handler) ∷ rest) = name ∷ handled rest

handler_in-mentions :
    (name : String) (table : List (String × Handler))
    → is_some (handler_in name table) ≡ mentions name (handled table)
unfolding handler_in mentions
handler_in-mentions name [] = refl
handler_in-mentions name ((n, handler) ∷ rest) = ground (arith, handler_in-mentions name rest)

same_of_both : (a b : Bool) → (a ≡ true → b ≡ true) → (b ≡ true → a ≡ true) → a ≡ b
same_of_both true b h k = sym (h refl)
same_of_both false true h k = k refl
same_of_both false false h k = refl

abbrev names : List String
names = elim remote_tool_set [ none ↦ [] | some found ↦ found ]

-- The server forwards exactly the tools for which the agent has a handler.
pub known_remote_tool_iff : (name : String) → known_remote_tool name ≡ is_some (handler_of name)
unfolding known_remote_tool tool_specs remote_from tool_handlers subset
known_remote_tool_iff name =
    same_of_both (mentions name names) (mentions name (handled tool_handlers))
      (mentions-subset name names (handled tool_handlers) refl)
      (mentions-subset name (handled tool_handlers) names refl)
    ∙ sym (handler_in-mentions name tool_handlers)
