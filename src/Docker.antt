-- ===== src/Docker.antt =====
-- The Docker daemon and the registries as the workers see them. They are no part of the workers:
-- each request is answered by an argument of the model, which may answer by all the requests made
-- before.
pub mod Made
use deviced.Base.{List, Option, Bool, Bytes}
use deviced.Types.{ContainerConfig, HostConfig, NetworkingConfig}
use deviced.Images.{ImageSummary}
use deviced.Registry.Service.{ApiEndpoint}

-- What the program reads of Docker's `Container`. A dead container may be listed without
-- names.
pub record ApiContainer : Type 0 where
  pub id : Bytes
  pub names : List Bytes
  pub image : Bytes
  pub state : Bytes
  pub labels : List (Bytes × Bytes)

-- What the program reads of Docker's `NetworkResource`.
pub record NetworkResource : Type 0 where
  pub id : Bytes
  pub name : Bytes

-- Docker's `ContainerCreateConfig`.
pub record ContainerCreateConfig : Type 0 where
  pub name : Bytes
  pub config : ContainerConfig
  pub host_config : HostConfig
  pub networking_config : NetworkingConfig

-- What the program reads and writes of Docker's `AuthConfig`.
pub record AuthConfig : Type 0 where
  pub username : Bytes
  pub password : Bytes
  pub identity_token : Bytes
  pub registry_token : Bytes

-- The requests of the program to Docker and to registries, and the wake-ups of the container worker.
pub data Call : Type 0 where
  network_list : Call
  network_create : Bytes → Bytes → Call
  network_inspect : Bytes → Call
  container_list : Call
  image_list : Call
  exec_create : Bytes → List Bytes → Call
  exec_attach : Bytes → Call
  container_stop : Bytes → Call
  container_remove : Bytes → Call
  container_create : ContainerCreateConfig → Call
  container_start : Bytes → Call
  image_pull : Bytes → AuthConfig → Call
  image_tag : Bytes → Bytes → Call
  registry_connect : Bytes → ApiEndpoint → Bytes → Call
  registry_tags : Bytes → Bytes → Call
  wake_containers : Call

-- The requests so far, the latest first.
abbrev pub History : Type 0
History = List Call

-- What Docker answers after a history; `none` and `false` stand for an error.
pub record Daemon : Type 0 where
  pub on_network_list : History → Option (List NetworkResource)
  pub on_network_create : History → Bytes → Option Bytes
  pub on_network_inspect : History → Bytes → Option NetworkResource
  pub on_container_list : History → Option (List ApiContainer)
  pub on_image_list : History → Option (List ImageSummary)
  pub on_exec_create : History → Bytes → Option Bytes
  pub on_container_create : History → ContainerCreateConfig → Option Bytes
  pub on_image_pull : History → Bytes → Bool
  pub on_image_tag : History → Bytes → Bytes → Bool
