-- ===== src/Registry/Config.antt =====
-- pkg/registry/config.go: insecure registries and names of indexes. The packages `net` and `net/url`
-- are an argument; addresses and subnets are what their printed form is.
use deviced.Base.{
  List, [], ◌∷◌, ◌++◌, Option, none, some, Bool, true, false, not, ◌&&◌, ◌||◌, Bytes, codes,
  is_empty, beq, has_prefix, has_suffix, contains, if◌then◌else◌,
}
use deviced.Base.Assoc.{lookup, insert}

pub record Url : Type 0 where
  pub scheme : Bytes
  pub host : Bytes
  pub path : Bytes
  pub raw_query : Bytes
  pub fragment : Bytes

-- `ParseCIDR`, `SplitHostPort` (the host), `LookupIP` (no address with an error), `ParseIP`,
-- `IPNet.Contains`, and `url.Parse`.
pub record Net : Type 0 where
  pub parse_cidr : Bytes → Option Bytes
  pub split_host_port : Bytes → Option Bytes
  pub lookup_ip : Bytes → Option (List Bytes)
  pub parse_ip : Bytes → Option Bytes
  pub net_contains : Bytes → Bytes → Bool
  pub parse_url : Bytes → Option Url

pub record ServiceOptions : Type 0 where
  pub mirrors : List Bytes
  pub insecure_registries : List Bytes
  pub v2_only : Bool

pub record IndexInfo : Type 0 where
  pub name : Bytes
  pub mirrors : List Bytes
  pub secure : Bool
  pub official : Bool

pub record ServiceConfig : Type 0 where
  pub insecure_registry_cidrs : List Bytes
  pub index_configs : List (Bytes × IndexInfo)
  pub mirrors : List Bytes
  pub v2_only : Bool

abbrev pub index_name : Bytes
index_name = codes "docker.io"

abbrev pub localhost_net : Bytes
localhost_net = codes "127.0.0.0/8"

abbrev pub index_server : Bytes
index_server = codes "https://index.docker.io/v1/"

abbrev pub insecure_index : Bytes → IndexInfo
insecure_index r = record { name = r; mirrors = []; secure = false; official = false }

module _ (net : Net) where
  open net use {parse_cidr, split_host_port, lookup_ip, parse_ip, net_contains, parse_url}

  -- The body of the loop over the insecure registries: a subnet, or a `host:port`.
  unfoldable pub add_insecure : Bytes → ServiceConfig → ServiceConfig
  add_insecure r config = elim (parse_cidr r) [
    | some ipnet ↦ record config {
      insecure_registry_cidrs = config.insecure_registry_cidrs ++ (ipnet ∷ []);
    }
    | none ↦ record config { index_configs = insert r (insecure_index r) config.index_configs }
  ]

  unfoldable pub add_all_insecure : List Bytes → ServiceConfig → ServiceConfig
  add_all_insecure [] config = config
  add_all_insecure (r ∷ rs) config = add_all_insecure rs (add_insecure r config)

  -- What follows the loop.
  unfoldable pub add_public_index : ServiceConfig → ServiceConfig
  add_public_index config = record config {
    index_configs =
        insert index_name
          (record { name = index_name; mirrors = config.mirrors; secure = true; official = true })
          config.index_configs;
  }

  unfoldable pub new_service_config : ServiceOptions → ServiceConfig
  new_service_config options = add_public_index (
      add_all_insecure (options.insecure_registries ++ (localhost_net ∷ [])) (record {
        insecure_registry_cidrs = [];
        index_configs = [];
        mirrors = options.mirrors;
        v2_only = options.v2_only;
      }))

  unfoldable pub host_addresses : Bytes → List Bytes
  host_addresses host = elim (lookup_ip host) [
    | some addrs ↦ addrs
    | none ↦ elim (parse_ip host) [ none ↦ [] | some ip ↦ ip ∷ [] ]
  ]

  -- The inner loop and the outer one: whether one of them returns.
  unfoldable pub in_some_net : Bytes → List Bytes → Bool
  in_some_net addr [] = false
  in_some_net addr (ipnet ∷ ipnets) = net_contains ipnet addr || in_some_net addr ipnets

  unfoldable pub some_in_net : List Bytes → List Bytes → Bool
  some_in_net [] ipnets = false
  some_in_net (addr ∷ addrs) ipnets = in_some_net addr ipnets || some_in_net addrs ipnets

  -- The host without its port, if it has one.
  unfoldable pub host_of_index : Bytes → Bytes
  host_of_index name = elim (split_host_port name) [ none ↦ name | some host ↦ host ]

  unfoldable pub is_secure_index : ServiceConfig → Bytes → Bool
  is_secure_index config name = elim (lookup name config.index_configs) [
    | some index ↦ index.secure
    | none ↦ not (some_in_net (host_addresses (host_of_index name)) config.insecure_registry_cidrs)
  ]

  -- `none` is an error.
  unfoldable pub validate_mirror : Bytes → Option Bytes
  validate_mirror val = elim (parse_url val) [
    | none ↦ none
    | some uri ↦
        if not (beq uri.scheme (codes "http")) && not (beq uri.scheme (codes "https"))
        then none
        else if not (is_empty uri.path)
            || (not (is_empty uri.raw_query) || not (is_empty uri.fragment))
        then none
        else some (uri.scheme ++ (codes "://" ++ (uri.host ++ codes "/")))
  ]

  unfoldable pub validate_index_name : Bytes → Option Bytes
  validate_index_name val =
      if has_prefix (codes "-") val || has_suffix (codes "-") val then none else some val

  -- The index of a valid name: the configured one, or a new one.
  unfoldable pub index_info_of : ServiceConfig → Bytes → IndexInfo
  index_info_of config name = elim (lookup name config.index_configs) [
    | some index ↦ index
    | none ↦ record {
      name = name;
      mirrors = [];
      secure = is_secure_index config name;
      official = false;
    }
  ]

  unfoldable pub new_index_info : ServiceConfig → Bytes → Option IndexInfo
  new_index_info config name = elim (validate_index_name name) [
    | none ↦ none
    | some valid ↦ some (index_info_of config valid)
  ]

unfoldable pub validate_no_scheme : Bytes → Bool
validate_no_scheme repos_name = not (contains (codes "://") repos_name)

unfoldable pub get_auth_config_key : IndexInfo → Bytes
get_auth_config_key index = if index.official then index_server else index.name
