-- ===== src/Config/Agents.antt =====
-- `LoadAgent` of internal/config/config.go.
use open_remote_commander.Prelude.{
  ◌*◌, String, false, ◌||◌, List, [], ◌∷◌, Result, ok, ◌>>=◌, ◌>>◌, fail_if, or_fail,
}
use open_remote_commander.Prelude.Int.{pos, ltb_ℤ}
use open_remote_commander.Control.Codes.{trim_slashes}
use open_remote_commander.Config.{
  Agent, Library, check_url, env, env_bool, env_duration, env_int, hostname_of, split_path_list,
}

unfoldable pub abs_roots : Library → List String → Result String (List String)
abs_roots l [] = ok []
abs_roots l (root ∷ roots) = do
  place ← or_fail (l.absolute root) "allowed root"
  places ← abs_roots l roots
  ok (place ∷ places)

abbrev pub roots_or_home : Library → List String → Result String (List String)
roots_or_home l [] = do
  home ← or_fail l.home "ORC_ALLOWED_ROOTS is required when home cannot be resolved"
  ok (home ∷ [])
roots_or_home l (root ∷ roots) = ok (root ∷ roots)

abbrev pub agent_of : Library → List String → Agent
agent_of l roots = record {
  server_url = trim_slashes (env l "ORC_SERVER_URL" "http://127.0.0.1:8080");
  device_id = l.getenv "ORC_DEVICE_ID";
  agent_token = l.getenv "ORC_AGENT_TOKEN";
  device_name = env l "ORC_DEVICE_NAME" (hostname_of l.host_name);
  allowed_roots = roots;
  max_processes = env_int l "ORC_MAX_PROCESSES" (pos 8);
  max_process_bytes = env_int l "ORC_MAX_PROCESS_BUFFER_BYTES" (pos 1048576);
  max_runtime = env_duration l "ORC_MAX_PROCESS_RUNTIME" (pos (3600 * 1000000000));
  allow_shell = env_bool l "ORC_ALLOW_SHELL" false;
  allow_kill_process = env_bool l "ORC_ALLOW_KILL_PROCESS" false;
}

unfoldable pub load_agent : Library → Result String Agent
unfolding split_path_list abs_roots check_url env_bool
load_agent l = do
  named ← roots_or_home l (split_path_list l (l.getenv "ORC_ALLOWED_ROOTS"))
  roots ← abs_roots l named
  let c = agent_of l roots
  check_url l c.server_url "invalid ORC_SERVER_URL" "ORC_SERVER_URL must use https outside loopback"
  fail_if (ltb_ℤ c.max_processes (pos 1) || ltb_ℤ (pos 64) c.max_processes)
      "ORC_MAX_PROCESSES must be between 1 and 64"
  fail_if (ltb_ℤ c.max_process_bytes (pos 65536) || ltb_ℤ (pos 33554432) c.max_process_bytes)
      "ORC_MAX_PROCESS_BUFFER_BYTES must be between 64KiB and 32MiB"
  ok c
