-- ===== src/Config/InForce.antt =====
-- internal/platform/config/config.go: the value of each setting that is in force, of the flag, the
-- variable and the default.
use shiori_server.Prelude.{
  ◌≡◌, refl, String, Bool, false, ◌&&◌, ◌||◌, ltb, Option, none, some, List, [], ◌∷◌, arith, str_eq,
  if◌then◌else◌,
}
use shiori_server.Config.Types.{ℤ, pos, negsuc, Flags}
use shiori_server.Config.{
  Surroundings, is_zero, is_port, is_profile, is_level, is_format, number_or, value_or, or_keep,
  env_or, atoi_or, env_int, from_env, lower_or, port_from, is_positive, limit_from,
}

-- A TCP port is a number of 16 bits and not 0.
abbrev pub is_tcp_port : ℤ → Bool
is_tcp_port (pos n) = ltb 0 n && ltb n 65536
is_tcp_port (negsuc n) = false

abbrev pub stands_in : String → List String → Bool
stands_in s [] = false
stands_in s (t ∷ ts) = str_eq s t || stands_in s ts

pub is_port-is_tcp_port : (n : ℤ) → is_port n ≡ is_tcp_port n
is_port-is_tcp_port (pos n) = ground arith
is_port-is_tcp_port (negsuc n) = refl

pub is_profile-stands_in : (s : String) → is_profile s ≡ stands_in s ("portable" ∷ "docker" ∷ [])
is_profile-stands_in s = ground arith

pub is_level-stands_in :
    (s : String) → is_level s ≡ stands_in s ("debug" ∷ "info" ∷ "warn" ∷ "error" ∷ [])
is_level-stands_in s = ground arith

pub is_format-stands_in : (s : String) → is_format s ≡ stands_in s ("json" ∷ "text" ∷ "pretty" ∷ [])
is_format-stands_in s = ground arith

module _ (w : Surroundings) where
  -- The texts that are given for a setting, from the weakest to the strongest: the variable where it
  -- is set, and the flag.
  abbrev pub given : String → String → List String
  given key flag = elim (w.env key) [ none ↦ flag ∷ [] | some v ↦ v ∷ flag ∷ [] ]

  -- The last one that is not empty.
  abbrev pub in_force : (String → String) → String → List String → String
  in_force change before [] = before
  in_force change before (v ∷ vs) = in_force change (if str_eq v "" then before else change v) vs

  -- The numbers that are given for the port.
  abbrev pub given_ports : ℤ → List ℤ
  given_ports flag = elim (w.env "SHIORI_PORT") [
    | none ↦ flag ∷ []
    | some v ↦ elim (w.atoi v) [ none ↦ flag ∷ [] | some n ↦ n ∷ flag ∷ [] ]
  ]

  abbrev pub port_in_force : ℤ → List ℤ → ℤ
  port_in_force before [] = before
  port_in_force before (n ∷ ns) = port_in_force (if is_zero n then before else n) ns

  abbrev pub profile_in_force : Flags → String
  profile_in_force flags = in_force w.lower "portable" (given "SHIORI_PROFILE" flags.profile)

  abbrev pub level_in_force : Flags → String
  level_in_force flags = in_force w.lower "info" (given "SHIORI_LOG_LEVEL" flags.log_level)

  abbrev pub format_in_force : Flags → String
  format_in_force flags = in_force w.lower "pretty" (given "SHIORI_LOG_FORMAT" flags.log_format)

  abbrev pub host_in_force : Flags → String
  host_in_force flags = in_force (λ s. s) "127.0.0.1" (given "SHIORI_HOST" flags.host)

  -- A setting without a flag: the variable where it is set and not empty, else the default.
  abbrev pub variable_in_force : String → String → String
  variable_in_force key before = in_force (λ s. s) before (given key "")

  abbrev pub flare_in_force : String
  flare_in_force = variable_in_force "SHIORI_FLARESOLVERR_URL" "http://127.0.0.1:8191/v1"

  -- A limit: the variable where it is a number above 0, else the default.
  abbrev pub limit_in_force : String → ℤ → ℤ
  limit_in_force key before = elim (w.env key) [
    | none ↦ before
    | some v ↦ elim (w.atoi v) [ none ↦ before | some n ↦ if is_positive n then n else before ]
  ]

  pub limit_from-limit_in_force :
      (key : String) (before : ℤ) → limit_from w key before ≡ limit_in_force key before
  limit_from-limit_in_force key before = go (w.env key)
    where
      read :
          (o : Option ℤ)
          → (if is_positive (number_or o (pos 0)) then number_or o (pos 0) else before)
            ≡ elim o [ none ↦ before | some n ↦ if is_positive n then n else before ]
      read none = refl
      read (some n) = refl

      go :
          (o : Option String)
          → (if is_positive (atoi_or w o (pos 0)) then atoi_or w o (pos 0) else before) ≡ elim o [
            | none ↦ before
            | some v ↦ elim (w.atoi v) [
              | none ↦ before
              | some n ↦ if is_positive n then n else before
            ]
          ]
      go none = refl
      go (some v) = read (w.atoi v)

  pub lower_or-in_force :
      (key flag before : String)
      → lower_or w flag (lower_or w (env_or w key "") before)
        ≡ in_force w.lower before (given key flag)
  lower_or-in_force key flag before = go (w.env key)
    where
      go :
          (o : Option String)
          → lower_or w flag (lower_or w (value_or o "") before)
            ≡ in_force w.lower before (elim o [ none ↦ flag ∷ [] | some v ↦ v ∷ flag ∷ [] ])
      go none = refl
      go (some v) = refl

  pub from_env-in_force :
      (key before : String) → from_env w key before ≡ in_force (λ s. s) before (given key "")
  from_env-in_force key before = go (w.env key)
    where
      go :
          (o : Option String)
          → or_keep (value_or o "") before
            ≡ in_force (λ s. s) before (elim o [ none ↦ "" ∷ [] | some v ↦ v ∷ "" ∷ [] ])
      go none = refl
      go (some v) = refl

  pub or_keep-in_force :
      (key flag before : String)
      → or_keep flag (from_env w key before) ≡ in_force (λ s. s) before (given key flag)
  or_keep-in_force key flag before = go (w.env key)
    where
      go :
          (o : Option String)
          → or_keep flag (or_keep (value_or o "") before)
            ≡ in_force (λ s. s) before (elim o [ none ↦ flag ∷ [] | some v ↦ v ∷ flag ∷ [] ])
      go none = refl
      go (some v) = refl

  pub port_from-port_in_force :
      (flag before : ℤ)
      → port_from w flag (port_from w (env_int w "SHIORI_PORT" (pos 0)) before)
        ≡ port_in_force before (given_ports flag)
  port_from-port_in_force flag before = go (w.env "SHIORI_PORT")
    where
      read :
          (v : String) (o : Option ℤ)
          → port_from w flag (port_from w (number_or o (pos 0)) before)
            ≡ port_in_force before (elim o [ none ↦ flag ∷ [] | some n ↦ n ∷ flag ∷ [] ])
      read v none = refl
      read v (some n) = refl

      go :
          (o : Option String)
          → port_from w flag (port_from w (atoi_or w o (pos 0)) before)
            ≡ port_in_force before (elim o [
              | none ↦ flag ∷ []
              | some v ↦ elim (w.atoi v) [ none ↦ flag ∷ [] | some n ↦ n ∷ flag ∷ [] ]
            ])
      go none = refl
      go (some v) = read v (w.atoi v)
