-- ===== src/Config/Tests.antt =====
-- A configuration from a flag, a variable and the defaults.
use shiori_server.Prelude.{◌≡◌, refl, String, Option, none, some, [], str_eq, if◌then◌else◌}
use shiori_server.Chunker.Markdown.{is_empty}
use shiori_server.Config.Types.{pos, Config, Flags}
use shiori_server.Config.{Surroundings, config_with, load, validate_config}
use shiori_server.Config.Effective.{dir_in_force, IsInForce, is_valid_for, load-validate_config}

abbrev variables : String → Option String
variables key =
    if str_eq key "SHIORI_PORT"
    then some "many"
    else if str_eq key "SHIORI_LOG_LEVEL"
    then some "warn"
    else none

abbrev machine : Surroundings
machine = record {
  env = variables;
  lower = λ s. s;
  trim = λ s. s;
  atoi = λ s. none;
  beside_executable = some "/opt/.shiori";
  absolute = λ s. some s;
}

abbrev flags : Flags
flags = record {
  profile = "docker";
  data_dir = "";
  host = "";
  port = pos 0;
  log_level = "";
  log_format = "";
}

abbrev loaded : Config
loaded = config_with machine flags "/opt/.shiori"

loads : load machine flags ≡ some loaded
unfolding load
loads = refl

-- A port that is no number leaves the default.
keeps_port : loaded.server.port ≡ pos 8080
unfolding config_with
keeps_port = refl

is_valid : validate_config machine loaded ≡ []
unfolding validate_config config_with
is_valid = refl

load-validate_config_example :
    ((dir : String) × (dir_in_force machine flags ≡ some dir)
      × (machine.absolute dir ≡ some loaded.data_dir))
    × IsInForce machine flags loaded
    × (is_empty (validate_config machine loaded) ≡ is_valid_for machine flags loaded.data_dir)
load-validate_config_example = load-validate_config machine flags loaded loads
