-- ===== src/Registry/Ping.antt =====
-- pkg/registry/auth.go: `PingV2Registry`. Requests over HTTP, and what the library
-- github.com/docker/distribution reads in an answer, are arguments.
use deviced.Base.{
  List, [], ◌∷◌, ◌++◌, Option, none, some, Bool, true, false, ◌&&◌, Bytes, codes, beq,
  if◌then◌else◌,
}
use deviced.Registry.Config.{Url}
use deviced.Registry.Certs.{ClientTls}
use deviced.Registry.Service.{ApiEndpoint}

-- `http.Header`.
abbrev pub Header : Type 0
Header = List (Bytes × List Bytes)

-- What is read of an answer: its version headers, and the challenges that the manager takes from it,
-- if it can.
pub record Response : Type 0 where
  pub versions : List (Bytes × Bytes)
  pub challenges : Option Bytes

-- `URL.String`, whether `http.NewRequest` takes a URL, the name that
-- `reference.ParseNamed` reads, and whether `client.NewRepository` makes a repository of a name and a URL.
pub record HttpLibrary : Type 0 where
  pub url_string : Url → Bytes
  pub new_request : Bytes → Bool
  pub parse_named : Bytes → Option Bytes
  pub new_repository : Bytes → Bytes → Bool

-- The answer to a GET request with these headers, if there is one.
abbrev pub Transport : Type 0
Transport = ClientTls → Header → Bytes → Option Response

-- `DockerHeaders`: the headers that every request gets.
unfoldable pub docker_headers : Header → Header
docker_headers meta_headers = meta_headers

-- `strings.TrimRight(s, "/")`.
abbrev pub trim_slashes : Bytes → Bytes
trim_slashes [] = []
trim_slashes (c ∷ s) =
    let rest = trim_slashes s in
    elim rest [ [] ↦ if beq (c ∷ []) (codes "/") then [] else c ∷ [] | d ∷ t ↦ c ∷ d ∷ t ]

pub data PingError : Type 0 where
  bad_request : PingError
  no_answer : PingError
  ping_response_error : PingError  -- `PingResponseError`

-- A challenge manager or an error, and whether the answer says that it is a v2 registry.
pub data PingResult : Type 0 where
  pinged : Bytes → Bool → PingResult
  ping_failed : PingError → Bool → PingResult

-- The loop over the versions, up to its `break`.
unfoldable pub found_v2 : List (Bytes × Bytes) → Bool
found_v2 [] = false
found_v2 ((type, version) ∷ versions) =
    let later = found_v2 versions in
    if beq type (codes "registry") && beq version (codes "2.0") then true else later

unfoldable pub read_response : Response → PingResult
read_response resp = elim resp.challenges [
  | none ↦ ping_failed ping_response_error (found_v2 resp.versions)
  | some manager ↦ pinged manager (found_v2 resp.versions)
]

module _ (lib : HttpLibrary) where
  unfoldable pub ping_url : ApiEndpoint → Bytes
  ping_url endpoint = trim_slashes (lib.url_string endpoint.url) ++ codes "/v2/"

  unfoldable pub ping_v2_registry : Transport → Header → ApiEndpoint → PingResult
  ping_v2_registry transport headers endpoint =
      if lib.new_request (ping_url endpoint)
      then elim (transport endpoint.tls_config headers (ping_url endpoint)) [
        | none ↦ ping_failed no_answer false
        | some resp ↦ read_response resp
      ]
      else ping_failed bad_request false
