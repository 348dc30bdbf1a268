-- ===== src/Config/Tests.antt =====
-- A server configuration that is accepted, and ones that are refused.
use open_remote_commander.Prelude.{
  ◌≡◌, refl, String, false, [], ◌∷◌, none, some, ok, err, str_eq, if◌then◌else◌, trim_space,
}
use open_remote_commander.Control.Codes.{trim_slashes}
use open_remote_commander.Config.{Library, load_server, server_of, split, trimmed}
use open_remote_commander.Config.Safe.{IsSafe, load_server-IsSafe}

abbrev secret : String
secret = "0123456789abcdef0123456789abcdef"

abbrev variables : String → String
variables k =
    if str_eq k "ORC_HMAC_SECRET"
    then secret
    else if str_eq k "ORC_PAIRING_SECRET"
    then secret
    else ""

-- Every address is http on this machine.
abbrev library : Library
library = record {
  getenv = variables;
  parse_url =
      λ s. some (record { scheme = "http"; host = "127.0.0.1:8080"; hostname = "127.0.0.1" });
  equal_fold = str_eq;
  is_loopback_ip = λ s. str_eq s "127.0.0.1";
  split_host = λ s. some "127.0.0.1";
  atoi = λ s. none;
  parse_duration = λ s. none;
  lower = λ s. s;
  home = some "/home/alice";
  absolute = λ s. some s;
  host_name = none;
  separator = 58;
  on_windows = false;
}

accepts : load_server library ≡ ok (server_of library)
unfolding load_server trim_space trim_slashes
accepts = refl

unpaired :
    load_server (record library { getenv = λ k. "" })
    ≡ err "ORC_PAIRING_SECRET must be at least 32 bytes"
unfolding load_server trim_space trim_slashes
unpaired = refl

split_csv_run : trimmed (split 44 "a, b,,c ") ≡ "a" ∷ "b" ∷ "c" ∷ []
unfolding trimmed split trim_space
split_csv_run = refl

load_server-IsSafe_example : IsSafe library (server_of library)
load_server-IsSafe_example = load_server-IsSafe library (server_of library) accepts
