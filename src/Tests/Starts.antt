-- ===== src/Tests/Starts.antt =====
-- A start of the program on a device without a configuration file.
use deviced.Base.{Option, Bytes, [], ◌++◌, ◌≢◌, none, some, true, codes, ◌≡◌, ◌⊎◌, refl}
use deviced.Config.File.{Yaml, create_or_read, config_file_exists, read_from}
use deviced.Startup.{
  main, panicked, Surroundings, StartCases, default_path, init_config_path, run_root,
  run_root_cases,
}
use deviced.Tests.Fixtures.{tls_files, device}
use deviced.Tests.Basics.{one_file, one_document}

abbrev surroundings : Surroundings
surroundings = record {
  client_made = λ client. true;
  ping = true;
  hostname = some (codes "c3");
  container_inspect = λ name. some name;
  new_watcher = true;
  add_watch = λ path. true;
}

-- The current directory is the root.
abbrev from_root : Bytes → Option Bytes
from_root path = some (codes "/" ++ path)

run_root_cases_example :
    let path = init_config_path from_root (codes "conf") in
    (path ≢ [])
    × ((path ≡ default_path) ⊎ (from_root (codes "conf") ≡ some path))
    × StartCases one_file one_document tls_files surroundings path device none
        (run_root one_file one_document tls_files surroundings from_root (codes "conf") device none)
run_root_cases_example =
    run_root_cases one_file one_document tls_files surroundings from_root (codes "conf") device none

-- A file with a null document makes the start panic.
abbrev null_document : Yaml
null_document = record one_document { unmarshal = λ d c. (none, true) }

start_of_null :
    run_root one_file null_document tls_files surroundings from_root
      (codes "conf")
      device
      (some (codes "null"))
    ≡ panicked
start_of_null = unfold run_root main create_or_read config_file_exists read_from in refl
