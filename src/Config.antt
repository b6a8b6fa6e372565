-- ===== src/Config.antt =====
-- internal/platform/config/config.go: Load and Validate. The environment is given, after
-- godotenv has read the .env files into it; so are strings.ToLower and TrimSpace, strconv.Atoi, the
-- directory beside the executable and filepath.Abs.
pub mod Types
pub mod InForce
pub mod Effective
mod Tests
use shiori_server.Prelude.{
  ℕ, ◌*◌, String, Bool, true, false, not, ◌&&◌, ◌||◌, Option, none, some, List, [], ◌∷◌, ◌++◌, ltb,
  leb, ◌==◌, str_eq, if◌then◌else◌,
}
use shiori_server.Config.Types.{
  ℤ, pos, negsuc, ServerConfig, LogConfig, MinioConfig, AiConfig, Config, Flags, defaults,
}

pub record Surroundings : Type 0 where
  pub env : String → Option String
  pub lower : String → String
  pub trim : String → String
  pub atoi : String → Option ℤ
  pub beside_executable : Option String
  pub absolute : String → Option String

abbrev pub is_zero : ℤ → Bool
is_zero (pos n) = n == 0
is_zero (negsuc n) = false

abbrev pub is_positive : ℤ → Bool
is_positive (pos n) = ltb 0 n
is_positive (negsuc n) = false

abbrev pub value_or : Option String → String → String
value_or none fallback = fallback
value_or (some v) fallback = v

abbrev pub number_or : Option ℤ → ℤ → ℤ
number_or none fallback = fallback
number_or (some n) fallback = n

abbrev pub or_keep : String → String → String
or_keep v old = if str_eq v "" then old else v

abbrev pub is_port : ℤ → Bool
is_port (pos n) = leb 1 n && leb n 65535
is_port (negsuc n) = false

abbrev pub is_profile : String → Bool
is_profile p = str_eq p "portable" || str_eq p "docker"

abbrev pub is_level : String → Bool
is_level l = str_eq l "debug" || str_eq l "info" || str_eq l "warn" || str_eq l "error"

abbrev pub is_format : String → Bool
is_format f = str_eq f "json" || str_eq f "text" || str_eq f "pretty"

abbrev pub error_unless : Bool → String → List String
error_unless b e = if b then [] else e ∷ []

module _ (w : Surroundings) where
  abbrev pub env_or : String → String → String
  env_or key fallback = value_or (w.env key) fallback

  abbrev pub atoi_or : Option String → ℤ → ℤ
  atoi_or none fallback = fallback
  atoi_or (some v) fallback = number_or (w.atoi v) fallback

  abbrev pub env_int : String → ℤ → ℤ
  env_int key fallback = atoi_or (w.env key) fallback

  -- A variable that is set and not empty, in the place of the old value.
  abbrev pub from_env : String → String → String
  from_env key old = or_keep (env_or key "") old

  -- The same in lower case.
  abbrev pub lower_or : String → String → String
  lower_or v old = if str_eq v "" then old else w.lower v

  abbrev pub port_from : ℤ → ℤ → ℤ
  port_from n old = if is_zero n then old else n

  abbrev pub limit_from : String → ℤ → ℤ
  limit_from key old = if is_positive (env_int key (pos 0)) then env_int key (pos 0) else old

  abbrev pub flag_from : String → Bool → Bool
  flag_from v old = if str_eq v "" then old else str_eq v "true"

  abbrev pub data_dir_of : Flags → String
  data_dir_of flags = or_keep flags.data_dir (from_env "SHIORI_DATA_DIR" "")

  -- Where no directory is named, the one beside the executable.
  abbrev pub or_beside : String → Option String
  or_beside dir = if str_eq dir "" then w.beside_executable else some dir

  unfoldable pub config_with : Flags → String → Config
  config_with flags dir = record {
    profile = lower_or flags.profile (lower_or (env_or "SHIORI_PROFILE" "") defaults.profile);
    data_dir = dir;
    server = record defaults.server {
      host = or_keep flags.host (from_env "SHIORI_HOST" defaults.server.host);
      port = port_from flags.port (port_from (env_int "SHIORI_PORT" (pos 0)) defaults.server.port);
    };
    log = record {
      level = lower_or flags.log_level (lower_or (env_or "SHIORI_LOG_LEVEL" "") defaults.log.level);
      format =
          lower_or flags.log_format (lower_or (env_or "SHIORI_LOG_FORMAT" "") defaults.log.format);
    };
    postgres_url = from_env "SHIORI_POSTGRES_URL" defaults.postgres_url;
    valkey_addr = from_env "SHIORI_VALKEY_ADDR" defaults.valkey_addr;
    minio = record {
      endpoint = from_env "SHIORI_MINIO_ENDPOINT" defaults.minio.endpoint;
      access_key = from_env "SHIORI_MINIO_ACCESS_KEY" defaults.minio.access_key;
      secret_key = from_env "SHIORI_MINIO_SECRET_KEY" defaults.minio.secret_key;
      bucket = from_env "SHIORI_MINIO_BUCKET" defaults.minio.bucket;
      use_ssl = flag_from (env_or "SHIORI_MINIO_USE_SSL" "") defaults.minio.use_ssl;
    };
    ai = record defaults.ai {
      lm_studio_base_url = from_env "SHIORI_LMSTUDIO_BASE_URL" defaults.ai.lm_studio_base_url;
      token = from_env "SHIORI_LMSTUDIO_API_TOKEN" defaults.ai.token;
      model_tiny = from_env "SHIORI_MODEL_EXTRACT_TINY" defaults.ai.model_tiny;
      model_default = from_env "SHIORI_MODEL_EXTRACT_DEFAULT" defaults.ai.model_default;
      model_quality = from_env "SHIORI_MODEL_EXTRACT_QUALITY" defaults.ai.model_quality;
      max_context_length = limit_from "SHIORI_AI_MAX_CONTEXT_LENGTH" defaults.ai.max_context_length;
      max_content_bytes = limit_from "SHIORI_AI_MAX_CONTENT_BYTES" defaults.ai.max_content_bytes;
    };
    flare_solverr_url = from_env "SHIORI_FLARESOLVERR_URL" defaults.flare_solverr_url;
  }

  abbrev pub made_absolute : Flags → Option String → Option Config
  made_absolute flags none = none
  made_absolute flags (some dir) = elim (w.absolute dir) [
    | none ↦ none
    | some full ↦ some (config_with flags full)
  ]

  -- The configuration, none for an error.
  unfoldable pub load : Flags → Option Config
  load flags = made_absolute flags (or_beside (data_dir_of flags))

  -- The errors that errors.Join joins; none of them where it gives nil.
  unfoldable pub validate_config : Config → List String
  validate_config c =
      error_unless (is_profile c.profile) "invalid profile"
      ++ error_unless (not (str_eq c.data_dir "")) "data directory must not be empty"
      ++ error_unless (not (str_eq (w.trim c.flare_solverr_url) ""))
          "flaresolverr URL must not be empty"
      ++ error_unless (is_port c.server.port) "invalid port"
      ++ error_unless (is_level c.log.level) "invalid log level"
      ++ error_unless (is_format c.log.format) "invalid log format"
