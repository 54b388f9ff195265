-- ===== src/Tests/Fixtures.antt =====
-- A device with one target, two containers of it and a stray one, and two local images.
use deviced.Base.{List, [], ◌∷◌, none, some, true, false, Bytes, codes}
use deviced.Base.Int.{pos}
use deviced.Images.{ImageSummary}
use deviced.Docker.{ApiContainer, NetworkResource, Daemon}
use deviced.Config.Target.{TargetContainer}
use deviced.Config.Client.{DockerClientConfig, TlsFiles}
use deviced.Config.Repository.{RemoteRepository}
use deviced.Config.Document.{DevicedConfig, NetworkCreateRequest}
use deviced.ContainerSync.State.{RunningContainer}
use deviced.ContainerSync.Pass.{Env, Sleep}
use deviced.Tests.Zeros.{zero_config, zero_host_config, zero_networking_config}
use deviced.Registry.Config.{Net}
use deviced.Registry.Certs.{CertStore, entries}
use deviced.Registry.Ping.{HttpLibrary}
use deviced.ImageSync.State.{Registries, received}

abbrev pub amd64 : Bytes
amd64 = codes "amd64"

abbrev pub app : TargetContainer
app = record {
  id = codes "app";
  image = codes "shop/app";
  versions = codes "v3" ∷ codes "v2" ∷ codes "v1" ∷ [];
  use_any_version = false;
  no_arch_tag = false;
  restart_exited = false;
  docker_config = zero_config;
  docker_host_config = zero_host_config;
  docker_networking_config = zero_networking_config;
  lifecycle_hooks = record { on_stop = [] };
}

abbrev pub labelled : Bytes → Bytes → Bytes → ApiContainer
labelled id label image = record {
  id = id;
  names = id ∷ [];
  image = image;
  state = codes "running";
  labels = (codes "deviced.id", label) ∷ [];
}

abbrev pub best_app : ApiContainer
best_app = labelled (codes "c1") (codes "app") (codes "shop/app:v3")

abbrev pub old_app : ApiContainer
old_app = labelled (codes "c2") (codes "app") (codes "shop/app:v1")

abbrev pub stray : ApiContainer
stray = labelled (codes "c3") (codes "gone") (codes "shop/gone:v1")

-- The target runs version v1, which it scores by 2.
abbrev pub running_old : RunningContainer
running_old = record {
  deviced_id = codes "app";
  image = codes "shop/app";
  image_tag = codes "v1";
  score = 2;
  api_container = some old_app;
}

abbrev pub local_images : List ImageSummary
local_images =
    record { repo_tags = codes "shop/app:v2" ∷ codes "shop/app:v3" ∷ [] }
    ∷ record { repo_tags = codes "<none>:<none>" ∷ [] }
    ∷ []

abbrev pub bridge : NetworkResource
bridge = record { id = codes "n0"; name = codes "bridge" }

-- A Docker that grants every request.
abbrev pub docker : Daemon
docker = record {
  on_network_list = λ h. some (bridge ∷ []);
  on_network_create = λ h name. some (codes "n1");
  on_network_inspect = λ h id. none;
  on_container_list = λ h. some (old_app ∷ stray ∷ []);
  on_image_list = λ h. some local_images;
  on_exec_create = λ h cid. none;
  on_container_create = λ h ctr. some (codes "c9");
  on_image_pull = λ h name. true;
  on_image_tag = λ h source goal. true;
}

abbrev pub env : Env
env = record {
  daemon = docker;
  goarch = amd64;
  rand = λ n. 7;
  network_name = λ mode. mode;
  filter_parses = true;
  sleep_result = λ h. Sleep.elapsed;
  reflection = some (codes "c3");
  delete_order = λ m. m;
  start_order = λ m. m;
}

abbrev pub registry : RemoteRepository
registry = record {
  url = codes "http://mirror";
  pull_prefix = codes "mirror";
  username = [];
  password = [];
  meta_headers = [];
  insecure = false;
}

abbrev pub shop_net : NetworkCreateRequest
shop_net = record { name = codes "shop"; network_create = [] }

abbrev pub client_config : DockerClientConfig
client_config = record {
  load_from_environment = false;
  use_tls = true;
  tls_config = record {
    ca_pem_path = codes "ca";
    cert_pem_path = codes "cert";
    key_pem_path = codes "key";
  };
  endpoint = codes "tcp://docker";
}

abbrev pub tls_files : TlsFiles
tls_files = record {
  not_exist = λ path. false;
  read_file = λ path. some path;
  append_certs = λ pem. true;
  load_key_pair = λ cert key. some cert;
}

abbrev pub device : DevicedConfig
device = record {
  container_config = record { allow_self_delete = false };
  image_config = record { recheck_period = pos 0 };
  docker_config = client_config;
  repos = registry ∷ [];
  containers = app ∷ [];
  networks = shop_net ∷ [];
}

-- No name is a subnet, and no address is known; no certificate is stored.
abbrev pub net : Net
net = record {
  parse_cidr = λ r. none;
  split_host_port = λ name. none;
  lookup_ip = λ host. none;
  parse_ip = λ host. none;
  net_contains = λ ipnet addr. false;
  parse_url = λ url. none;
}

abbrev pub certs : CertStore
certs = record {
  server_default = record { insecure_skip_verify = false; root_cas = []; certificates = [] };
  join_path = λ a b. b;
  read_dir = λ directory. entries (codes "a.cert" ∷ codes "a.key" ∷ []);
  read_file = λ directory name. none;
  load_key_pair = λ directory cert key. some cert;
}

abbrev pub http_library : HttpLibrary
http_library = record {
  url_string = λ url. url.host;
  new_request = λ url. true;
  parse_named = λ name. some name;
  new_repository = λ name url. true;
}

-- Every registry is a v2 one and has version v3.
abbrev pub registries : Registries
registries = record {
  url_host = λ url. some url;
  net = net;
  certs = certs;
  lib = http_library;
  transport = λ h tls headers url. some (record {
    versions = (codes "registry", codes "2.0") ∷ [];
    challenges = some (codes "realm");
  });
  on_tags = λ h c. some (codes "v3" ∷ []);
  on_wake = λ h. received;
}
