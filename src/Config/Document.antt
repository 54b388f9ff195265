-- ===== src/Config/Document.antt =====
-- pkg/config/config.go and pkg/config/image.go: the records of the configuration document.
-- The source's lists are of pointers; a null entry, which the program would read through, is left out.
use deviced.Base.{List, Bool, Bytes}
use deviced.Base.Int.{ℤ}
use deviced.Config.Target.{TargetContainer}
use deviced.Config.Client.{DockerClientConfig}
use deviced.Config.Repository.{RemoteRepository}

pub record ContainerWorkerConfig : Type 0 where
  pub allow_self_delete : Bool

pub record ImageWorkerConfig : Type 0 where
  pub recheck_period : ℤ

-- Docker's `NetworkCreateRequest`: the name, and the rest as it is passed on to Docker.
pub record NetworkCreateRequest : Type 0 where
  pub name : Bytes
  pub network_create : Bytes

pub record DevicedConfig : Type 0 where
  pub container_config : ContainerWorkerConfig
  pub image_config : ImageWorkerConfig
  pub docker_config : DockerClientConfig
  pub repos : List RemoteRepository
  pub containers : List TargetContainer
  pub networks : List NetworkCreateRequest
