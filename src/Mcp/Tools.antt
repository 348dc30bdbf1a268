-- ===== src/Mcp/Tools.antt =====
-- The tool table of internal/mcpserver/server.go: `toolSpec`, `buildToolSpecs`, `buildRemoteToolSet`,
-- `annotationsForSafety`. Descriptions and the types of the properties are texts for the client.
use open_remote_commander.Prelude.{
  String, Bool, true, false, ◌||◌, List, [], ◌∷◌, Option, none, some, str_eq, if◌then◌else◌,
}

pub data Safety : Type 0 where
  unspecified read_only mutating destructive : Safety

pub record ToolSpec : Type 0 where
  pub name : String
  pub properties : List String
  pub required : List String
  pub safety : Safety
  pub remote : Bool

abbrev spec : String → List String → List String → Safety → Bool → ToolSpec
spec name properties required safety remote = record {
  name = name;
  properties = properties;
  required = required;
  safety = safety;
  remote = remote;
}

-- readOnlyHint and destructiveHint; none is a panic.
abbrev pub annotations_for_safety : Safety → Option (Bool × Bool)
annotations_for_safety unspecified = none
annotations_for_safety read_only = some (true, false)
annotations_for_safety mutating = some (false, false)
annotations_for_safety destructive = some (false, true)

unfoldable pub tool_specs : List ToolSpec
tool_specs =
    spec "list_devices" ([]) ([]) read_only false
    ∷ spec "ping" ("device_id" ∷ []) ("device_id" ∷ []) read_only true
    ∷ spec "read_file" ("device_id" ∷ "path" ∷ "offset" ∷ "max_bytes" ∷ [])
        ("device_id" ∷ "path" ∷ []) read_only true
    ∷ spec "write_file" ("device_id" ∷ "path" ∷ "content" ∷ "encoding" ∷ "mode" ∷ [])
        ("device_id" ∷ "path" ∷ "content" ∷ []) destructive true
    ∷ spec "list_directory" ("device_id" ∷ "path" ∷ []) ("device_id" ∷ "path" ∷ []) read_only true
    ∷ spec "create_directory" ("device_id" ∷ "path" ∷ "mode" ∷ []) ("device_id" ∷ "path" ∷ [])
        mutating true
    ∷ spec "move_file" ("device_id" ∷ "source" ∷ "destination" ∷ "overwrite" ∷ [])
        ("device_id" ∷ "source" ∷ "destination" ∷ []) destructive true
    ∷ spec "get_file_info" ("device_id" ∷ "path" ∷ []) ("device_id" ∷ "path" ∷ []) read_only true
    ∷ spec "start_process" ("device_id" ∷ "argv" ∷ "command" ∷ "cwd" ∷ "env" ∷ [])
        ("device_id" ∷ []) destructive true
    ∷ spec "read_process_output" ("device_id" ∷ "process_id" ∷ "cursor" ∷ "max_bytes" ∷ [])
        ("device_id" ∷ "process_id" ∷ []) read_only true
    ∷ spec "interact_with_process" ("device_id" ∷ "process_id" ∷ "data" ∷ "encoding" ∷ [])
        ("device_id" ∷ "process_id" ∷ "data" ∷ []) destructive true
    ∷ spec "force_terminate" ("device_id" ∷ "process_id" ∷ []) ("device_id" ∷ "process_id" ∷ [])
        destructive true
    ∷ spec "read_multiple_files" ("device_id" ∷ "paths" ∷ "max_bytes_per_file" ∷ [])
        ("device_id" ∷ "paths" ∷ []) read_only true
    ∷ spec "edit_block"
        ("device_id" ∷ "file_path" ∷ "old_string" ∷ "new_string" ∷ "expected_replacements" ∷ [])
        ("device_id" ∷ "file_path" ∷ "old_string" ∷ "new_string" ∷ []) destructive true
    ∷ spec "list_sessions" ("device_id" ∷ []) ("device_id" ∷ []) read_only true
    ∷ spec "start_search"
        ("device_id" ∷ "path" ∷ "pattern" ∷ "search_type" ∷ "regex" ∷ "case_sensitive"
          ∷ "include_hidden" ∷ "max_results" ∷ "max_file_bytes" ∷ [])
        ("device_id" ∷ "path" ∷ "pattern" ∷ []) read_only true
    ∷ spec "get_more_search_results" ("device_id" ∷ "session_id" ∷ "max_results" ∷ [])
        ("device_id" ∷ "session_id" ∷ []) read_only true
    ∷ spec "stop_search" ("device_id" ∷ "session_id" ∷ []) ("device_id" ∷ "session_id" ∷ [])
        read_only true
    ∷ spec "list_searches" ("device_id" ∷ []) ("device_id" ∷ []) read_only true
    ∷ spec "list_processes" ("device_id" ∷ "max_results" ∷ []) ("device_id" ∷ []) read_only true
    ∷ spec "kill_process" ("device_id" ∷ "pid" ∷ []) ("device_id" ∷ "pid" ∷ []) destructive true
    ∷ spec "get_config" ("device_id" ∷ []) ("device_id" ∷ []) read_only true
    ∷ []

unfoldable pub mentions : String → List String → Bool
mentions name [] = false
mentions name (n ∷ names) = str_eq n name || mentions name names

-- The names of the remote tools; none is a panic on an empty name or one that is there twice.
unfoldable pub remote_from : List String → List ToolSpec → Option (List String)
unfolding mentions
remote_from seen [] = some []
remote_from seen (t ∷ specs) =
    let rest = remote_from (t.name ∷ seen) specs in
    if str_eq t.name "" || mentions t.name seen
    then none
    else elim rest [ none ↦ none | some names ↦ some (if t.remote then t.name ∷ names else names) ]

abbrev pub remote_tool_set : Option (List String)
remote_tool_set = remote_from [] tool_specs

-- A name that is in the set.
unfoldable pub known_remote_tool : String → Bool
unfolding mentions
known_remote_tool name = elim remote_tool_set [ none ↦ false | some names ↦ mentions name names ]
