-- ===== src/Executor/Tools.antt =====
-- The table `toolHandlers` of internal/executor/executor.go and `Execute`: which tool names it accepts.
use open_remote_commander.Prelude.{String, List, [], ◌∷◌, Option, none, some, str_eq, if◌then◌else◌}

-- The handlers, one for each key of the map.
pub data Handler : Type 0 where
  ping read_file write_file read_multiple_files edit_block list_directory create_directory move_file
        get_file_info start_process read_process_output interact_with_process force_terminate
        list_sessions start_search get_more_search_results stop_search list_searches list_processes
        kill_process get_config :
      Handler

unfoldable pub tool_handlers : List (String × Handler)
tool_handlers =
    ("ping", ping)
    ∷ ("read_file", read_file)
    ∷ ("write_file", write_file)
    ∷ ("read_multiple_files", read_multiple_files)
    ∷ ("edit_block", edit_block)
    ∷ ("list_directory", list_directory)
    ∷ ("create_directory", create_directory)
    ∷ ("move_file", move_file)
    ∷ ("get_file_info", get_file_info)
    ∷ ("start_process", start_process)
    ∷ ("read_process_output", read_process_output)
    ∷ ("interact_with_process", interact_with_process)
    ∷ ("force_terminate", force_terminate)
    ∷ ("list_sessions", list_sessions)
    ∷ ("start_search", start_search)
    ∷ ("get_more_search_results", get_more_search_results)
    ∷ ("stop_search", stop_search)
    ∷ ("list_searches", list_searches)
    ∷ ("list_processes", list_processes)
    ∷ ("kill_process", kill_process)
    ∷ ("get_config", get_config)
    ∷ []

unfoldable pub handler_in : String → List (String × Handler) → Option Handler
handler_in tool [] = none
handler_in tool ((name, handler) ∷ rest) =
    if str_eq name tool then some handler else handler_in tool rest

-- handler := toolHandlers[tool]; nil is "unsupported tool"
abbrev pub handler_of : String → Option Handler
handler_of tool = handler_in tool tool_handlers
