-- ===== src/Types.antt =====
-- pkg/types/container.go: Docker's description of a container, as the configuration gives it. A text
-- stands for a value of a type of Docker's libraries. `ToAPI` brings a value into Docker's type of the
-- same fields by way of JSON; here the two types are one, and it changes nothing.
use deviced.Base.{ℕ, List, Option, Bool, Bytes}
use deviced.Base.Int.{ℤ}

pub record DeviceMapping : Type 0 where
  pub path_on_host : Bytes
  pub path_in_container : Bytes
  pub cgroup_permissions : Bytes

pub record ContainerConfig : Type 0 where
  pub hostname : Bytes
  pub domainname : Bytes
  pub user : Bytes
  pub attach_stdin : Bool
  pub attach_stdout : Bool
  pub attach_stderr : Bool
  pub exposed_ports : List Bytes
  pub tty : Bool
  pub open_stdin : Bool
  pub stdin_once : Bool
  pub env : List Bytes
  pub cmd : List Bytes
  pub healthcheck : Option Bytes
  pub image : Bytes
  pub volumes : List Bytes
  pub working_dir : Bytes
  pub entrypoint : List Bytes
  pub network_disabled : Bool
  pub labels : List (Bytes × Bytes)
  pub stop_signal : Bytes
  pub stop_timeout : Option ℤ

pub record Resources : Type 0 where
  pub cpu_shares : ℤ
  pub memory : ℤ
  pub nano_cpus : ℤ
  pub cgroup_parent : Bytes
  pub blkio_weight : ℕ
  pub blkio_weight_device : List Bytes
  pub blkio_device_read_bps : List Bytes
  pub blkio_device_write_bps : List Bytes
  pub blkio_device_read_iops : List Bytes
  pub blkio_device_write_iops : List Bytes
  pub cpu_period : ℤ
  pub cpu_quota : ℤ
  pub cpu_realtime_period : ℤ
  pub cpu_realtime_runtime : ℤ
  pub cpuset_cpus : Bytes
  pub cpuset_mems : Bytes
  pub devices : List DeviceMapping
  pub disk_quota : ℤ
  pub kernel_memory : ℤ
  pub memory_reservation : ℤ
  pub memory_swap : ℤ
  pub memory_swappiness : Option ℤ
  pub oom_kill_disable : Option Bool
  pub pids_limit : ℤ
  pub ulimits : List Bytes

pub record RestartPolicy : Type 0 where
  pub name : Bytes
  pub maximum_retry_count : ℤ

pub record LogConfig : Type 0 where
  pub type : Bytes
  pub config : List (Bytes × Bytes)

pub record HostConfig : Type 0 where
  pub binds : List Bytes
  pub container_id_file : Bytes
  pub log_config : LogConfig
  pub network_mode : Bytes
  pub port_bindings : List (Bytes × List Bytes)
  pub restart_policy : RestartPolicy
  pub auto_remove : Bool
  pub volume_driver : Bytes
  pub volumes_from : List Bytes
  pub cap_add : List Bytes
  pub cap_drop : List Bytes
  pub dns : List Bytes
  pub dns_options : List Bytes
  pub dns_search : List Bytes
  pub extra_hosts : List Bytes
  pub group_add : List Bytes
  pub ipc_mode : Bytes
  pub cgroup : Bytes
  pub links : List Bytes
  pub oom_score_adj : ℤ
  pub pid_mode : Bytes
  pub privileged : Bool
  pub publish_all_ports : Bool
  pub readonly_rootfs : Bool
  pub security_opt : List Bytes
  pub storage_opt : List (Bytes × Bytes)
  pub tmpfs : List (Bytes × Bytes)
  pub uts_mode : Bytes
  pub userns_mode : Bytes
  pub shm_size : ℤ
  pub sysctls : List (Bytes × Bytes)
  pub runtime : Bytes
  pub resources : Resources
  pub mounts : List Bytes
  pub init : Option Bool

pub record EndpointIpamConfig : Type 0 where
  pub ipv4_address : Bytes
  pub ipv6_address : Bytes
  pub link_local_ips : List Bytes

pub record EndpointSettings : Type 0 where
  pub ipam_config : Option EndpointIpamConfig
  pub links : List Bytes
  pub aliases : List Bytes
  pub network_id : Bytes
  pub endpoint_id : Bytes
  pub gateway : Bytes
  pub ip_address : Bytes
  pub ip_prefix_len : ℤ
  pub ipv6_gateway : Bytes
  pub global_ipv6_address : Bytes
  pub global_ipv6_prefix_len : ℤ
  pub mac_address : Bytes

pub record NetworkingConfig : Type 0 where
  pub endpoints_config : List (Bytes × EndpointSettings)
