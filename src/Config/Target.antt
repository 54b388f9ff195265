-- ===== src/Config/Target.antt =====
-- pkg/config/container.go: a target container and the score of a version.
pub mod Score
use deviced.Base.{ℕ, ◌+◌, List, [], ◌∷◌, Option, Bool, Bytes, equal_fold, if◌then◌else◌}
use deviced.Types.{ContainerConfig, HostConfig, NetworkingConfig}
use deviced.Arch.{append_arch_tag_suffix}

pub record LifecycleExecHook : Type 0 where
  pub command : List Bytes
  pub timeout : Bytes

pub record LifecycleHook : Type 0 where
  pub exec : Option LifecycleExecHook

pub record LifecycleHookSet : Type 0 where
  pub on_stop : List LifecycleHook

pub record TargetContainer : Type 0 where
  pub id : Bytes
  pub image : Bytes
  pub versions : List Bytes
  pub use_any_version : Bool
  pub no_arch_tag : Bool
  pub restart_exited : Bool
  pub docker_config : ContainerConfig
  pub docker_host_config : HostConfig
  pub docker_networking_config : NetworkingConfig
  pub lifecycle_hooks : LifecycleHookSet

abbrev pub max_uint16 : ℕ
max_uint16 = 65535

-- The loop over the versions from index `idx` on.
unfoldable pub version_index : Bytes → List Bytes → ℕ → ℕ
version_index version [] idx = max_uint16
version_index version (ver ∷ vers) idx =
    let later = version_index version vers (idx + 1) in
    if equal_fold ver version then idx else later

-- Lower is better.
unfoldable pub container_version_score : Bytes → TargetContainer → Bytes → ℕ
container_version_score goarch tc version =
    version_index version (append_arch_tag_suffix goarch tc.versions) 0
