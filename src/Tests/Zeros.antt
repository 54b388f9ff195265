-- ===== src/Tests/Zeros.antt =====
-- The zero values of the types of containers.
use deviced.Base.{[], none, false}
use deviced.Base.Int.{pos}
use deviced.Types.{
  ContainerConfig, Resources, RestartPolicy, LogConfig, HostConfig, NetworkingConfig,
}

abbrev pub zero_config : ContainerConfig
zero_config = record {
  hostname = [];
  domainname = [];
  user = [];
  attach_stdin = false;
  attach_stdout = false;
  attach_stderr = false;
  exposed_ports = [];
  tty = false;
  open_stdin = false;
  stdin_once = false;
  env = [];
  cmd = [];
  healthcheck = none;
  image = [];
  volumes = [];
  working_dir = [];
  entrypoint = [];
  network_disabled = false;
  labels = [];
  stop_signal = [];
  stop_timeout = none;
}

abbrev pub zero_resources : Resources
zero_resources = record {
  cpu_shares = pos 0;
  memory = pos 0;
  nano_cpus = pos 0;
  cgroup_parent = [];
  blkio_weight = 0;
  blkio_weight_device = [];
  blkio_device_read_bps = [];
  blkio_device_write_bps = [];
  blkio_device_read_iops = [];
  blkio_device_write_iops = [];
  cpu_period = pos 0;
  cpu_quota = pos 0;
  cpu_realtime_period = pos 0;
  cpu_realtime_runtime = pos 0;
  cpuset_cpus = [];
  cpuset_mems = [];
  devices = [];
  disk_quota = pos 0;
  kernel_memory = pos 0;
  memory_reservation = pos 0;
  memory_swap = pos 0;
  memory_swappiness = none;
  oom_kill_disable = none;
  pids_limit = pos 0;
  ulimits = [];
}

abbrev pub zero_restart_policy : RestartPolicy
zero_restart_policy = record { name = []; maximum_retry_count = pos 0 }

abbrev pub zero_log_config : LogConfig
zero_log_config = record { type = []; config = [] }

abbrev pub zero_host_config : HostConfig
zero_host_config = record {
  binds = [];
  container_id_file = [];
  log_config = zero_log_config;
  network_mode = [];
  port_bindings = [];
  restart_policy = zero_restart_policy;
  auto_remove = false;
  volume_driver = [];
  volumes_from = [];
  cap_add = [];
  cap_drop = [];
  dns = [];
  dns_options = [];
  dns_search = [];
  extra_hosts = [];
  group_add = [];
  ipc_mode = [];
  cgroup = [];
  links = [];
  oom_score_adj = pos 0;
  pid_mode = [];
  privileged = false;
  publish_all_ports = false;
  readonly_rootfs = false;
  security_opt = [];
  storage_opt = [];
  tmpfs = [];
  uts_mode = [];
  userns_mode = [];
  shm_size = pos 0;
  sysctls = [];
  runtime = [];
  resources = zero_resources;
  mounts = [];
  init = none;
}

abbrev pub zero_networking_config : NetworkingConfig
zero_networking_config = record { endpoints_config = [] }
