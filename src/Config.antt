-- ===== src/Config.antt =====
-- internal/platform/config/config.go. `env` is what `os.Getenv` answers once a `.env` file has been
-- read, and the flags are those that were given on the command line; the readers of `net/netip` and
-- the validation of the struct are parameters, and binding the flags does not fail.
use air_cover.Base.{
  ℤ, pos, String, ◌<>◌, false, Option, none, some, List, [], ◌∷◌, ◌++◌, ◌==◌, string_eq, int_eq,
  of_int, to_int?, trim, if◌then◌else◌,
}
use air_cover.Base.Strings.{split_on}
use air_cover.Errors.{Error, opaque, wrap, Result, ok, err}
use air_cover.Http.Ports.{Addr, v4, v6, Prefix}

-- `Config`
pub record Config : Type 0 where
  pub port : ℤ
  pub db_uri : String
  pub env : String
  pub master_email : String
  pub resend_api_key : String
  pub send_grid_api_key : String
  pub from_email : String
  pub app_base_url : String
  pub spinitron_api_url : String
  pub trusted_proxies : List Prefix

pub record Flags : Type 0 where
  pub port : Option ℤ
  pub db_uri : Option String

-- `netip.PrefixFrom(addr, addr.BitLen())`, which drops a zone.
abbrev whole_prefix : Addr → Prefix
whole_prefix (v4 n) = record { addr = v4 n; bits = 32 }
whole_prefix (v6 n zone) = record { addr = v6 n false; bits = 128 }

module _ (parse_prefix : String → Option Prefix) (parse_addr : String → Option Addr) where
  abbrev addr_entry : String → Option Addr → Result (List Prefix)
  addr_entry value none = err (opaque ("invalid TRUSTED_PROXIES entry: " <> value))
  addr_entry value (some addr) = ok (whole_prefix addr ∷ [])

  abbrev prefix_entry : String → Option Prefix → Result (List Prefix)
  prefix_entry value none = addr_entry value (parse_addr value)
  prefix_entry value (some prefix) = ok (prefix ∷ [])

  abbrev entry : String → Result (List Prefix)
  entry value = if value == "" then ok [] else prefix_entry value (parse_prefix value)

  abbrev and_entries : Result (List Prefix) → Result (List Prefix) → Result (List Prefix)
  and_entries (err e) later = err e
  and_entries (ok prefixes) (err e) = err e
  and_entries (ok prefixes) (ok more) = ok (prefixes ++ more)

  entries : List String → Result (List Prefix)
  entries [] = ok []
  entries (part ∷ parts) = and_entries (entry (trim part)) (entries parts)

  -- `parseTrustedProxies`
  unfoldable pub parse_trusted_proxies : String → Result (List Prefix)
  unfolding entries
  parse_trusted_proxies raw = entries (split_on b',' raw)

  abbrev port_from : String → Option ℤ → Result ℤ
  port_from text none = err (opaque "invalid PORT")
  port_from text (some port) = ok port

  abbrev env_port : String → Result ℤ
  env_port text = if text == "" then ok (pos 0) else port_from text (to_int? text)

  abbrev env_proxies : String → Result (List Prefix)
  env_proxies text = if text == "" then ok [] else parse_trusted_proxies text

  abbrev chosen : {A : Type 0} → Option A → A → A
  chosen none a = a
  chosen (some b) a = b

  abbrev or_text : String → String → String
  or_text text other = if text == "" then other else text

  abbrev given_flags : Option Flags → Flags
  given_flags none = record { port = none; db_uri = none }
  given_flags (some flags) = flags

  -- The configuration before its validation: flags before variables before defaults.
  abbrev filled_in : (String → String) → Flags → ℤ → List Prefix → Config
  filled_in env flags env_port proxies =
      let given = chosen flags.port env_port in
      let port = if given == pos 0 then pos 8080 else given in
      record {
        port = port;
        db_uri = chosen flags.db_uri (env "DB_URI");
        env = or_text (env "ENV") "production";
        master_email = env "MASTER_EMAIL";
        resend_api_key = env "RESEND_API_KEY";
        send_grid_api_key = env "SENDGRID_API_KEY";
        from_email = env "FROM_EMAIL";
        app_base_url = or_text (env "APP_BASE_URL") ("http://localhost:" <> of_int port);
        spinitron_api_url = env "SPINITRON_API_URL";
        trusted_proxies = proxies;
      }

  module _ (validate : Config → Option Error) where
    abbrev checked : Config → Option Error → Result Config
    checked cfg none = ok cfg
    checked cfg (some e) = err (wrap "configuration validation failed: " e "")

    abbrev loaded :
        (String → String) → Option Flags → Result ℤ → Result (List Prefix) → Result Config
    loaded env flags (err e) proxies = err e
    loaded env flags (ok port) (err e) = err e
    loaded env flags (ok port) (ok proxies) =
        let cfg = filled_in env (given_flags flags) port proxies in checked cfg (validate cfg)

    -- `Load`
    unfoldable pub load : (String → String) → Option Flags → Result Config
    load env flags = loaded env flags (env_port (env "PORT")) (env_proxies (env "TRUSTED_PROXIES"))
