-- ===== src/Http/Origin.antt =====
-- proxy.go, and the tests of router.go and auth.go on where a request comes from.
use air_cover.Base.{
  String, Bool, true, false, not, ◌&&◌, ◌||◌, Option, none, some, List, is_empty, any_by, ◌==◌,
  string_eq, trim, lower, if◌then◌else◌,
}
use air_cover.Base.Strings.{equal_fold, until, trim_brackets}
use air_cover.Http.Message.{Request, Context, Handler, http_error, give}
use air_cover.Http.Ports.{Addr, Prefix, prefix_contains, Url, Platform}

abbrev or_text : Option String → String → String
or_text none s = s
or_text (some t) s = t

abbrev in_some_prefix : List Prefix → Option Addr → Bool
in_some_prefix proxies none = false
in_some_prefix proxies (some a) = any_by (λ p. prefix_contains p a) proxies

module _ {W : Type 0} (platform : Platform W) where
  -- `remoteAddrTrusted`
  unfoldable pub remote_addr_trusted : String → List Prefix → Bool
  remote_addr_trusted remote_addr proxies = in_some_prefix proxies (
      platform.parse_addr
        (trim_brackets (or_text (platform.split_host_port remote_addr) remote_addr)))

  -- `TrustForwardedHeaders`
  unfoldable pub trust_forwarded_headers : List Prefix → Handler W → Handler W
  trust_forwarded_headers proxies next c r =
      if is_empty proxies
      then next c r
      else if remote_addr_trusted r.remote_addr proxies
      then next (record c { trusted_proxy = true }) r
      else next c r

-- `trustedForwardedProto`
unfoldable pub trusted_forwarded_proto : Context → Request → String
trusted_forwarded_proto c r =
    if not c.trusted_proxy then "" else lower (trim (until b',' (r.header "X-Forwarded-Proto")))

-- `isSecureRequest`
unfoldable pub is_secure_request : Context → Request → Bool
is_secure_request c r = r.tls || trusted_forwarded_proto c r == "https"

-- `requestScheme`
unfoldable pub request_scheme : Context → Request → String
request_scheme c r = if r.tls || trusted_forwarded_proto c r == "https" then "https" else "http"

-- `isMutation`
abbrev pub is_mutation : String → Bool
is_mutation method = method == "POST" || method == "PATCH" || method == "DELETE"

module _ {W : Type 0} (platform : Platform W) where
  abbrev url_matches : Context → Request → Option Url → Bool
  url_matches c r none = false
  url_matches c r (some u) =
      not (u.scheme == "" || u.url_host == "")
      && (equal_fold u.scheme (request_scheme c r) && equal_fold u.url_host r.host)

  -- `requestOriginMatches`
  unfoldable pub request_origin_matches : Context → Request → String → Bool
  request_origin_matches c r raw_url = url_matches c r (platform.parse_url raw_url)

  -- `isSameOriginRequest`
  unfoldable pub is_same_origin_request : Context → Request → Bool
  is_same_origin_request c r =
      let site = lower (r.header "Sec-Fetch-Site") in
      if site == "same-origin" || site == "same-site" || site == "none"
      then true
      else if site == "cross-site"
      then false
      else if not (r.header "Origin" == "")
      then request_origin_matches c r (r.header "Origin")
      else if not (r.header "Referer" == "")
      then request_origin_matches c r (r.header "Referer")
      else false

  -- `requireSameOriginMutation`
  unfoldable pub require_same_origin_mutation : Handler W → Handler W
  require_same_origin_mutation next c r =
      if not (is_mutation r.method) || is_same_origin_request c r
      then next c r
      else give (http_error 403 "Forbidden")
