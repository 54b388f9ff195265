-- ===== src/Config/Defaults.antt =====
-- pkg/config/config.go and pkg/config/image.go: the defaults.
use deviced.Base.{false, not, ◌&&◌, is_empty, if◌then◌else◌, ◌≡◌, arith}
use deviced.Base.Int.{pos, is_zero}
use deviced.Config.Client.{fill_client_defaults}
use deviced.Config.Document.{ImageWorkerConfig, DevicedConfig}

unfoldable pub fill_image_defaults : ImageWorkerConfig → ImageWorkerConfig
fill_image_defaults c = if is_zero c.recheck_period then record c { recheck_period = pos 60 } else c

unfoldable pub fill_with_defaults : DevicedConfig → DevicedConfig
fill_with_defaults c = record c {
  docker_config = fill_client_defaults c.docker_config;
  image_config = fill_image_defaults c.image_config;
}

-- The document has what `FillWithDefaults` gives.
pub record IsFilled (c : DevicedConfig) : Type 0 where
  pub has_period : is_zero c.image_config.recheck_period ≡ false
  pub has_endpoint :
      (is_empty c.docker_config.endpoint && not c.docker_config.load_from_environment) ≡ false

pub fill_with_defaults-IsFilled : (c : DevicedConfig) → IsFilled (fill_with_defaults c)
unfolding fill_with_defaults fill_image_defaults fill_client_defaults
fill_with_defaults-IsFilled c = ground arith

-- A filled document is left as it is.
pub fill_with_defaults_of_IsFilled : (c : DevicedConfig) → IsFilled c → fill_with_defaults c ≡ c
unfolding fill_with_defaults fill_image_defaults fill_client_defaults
fill_with_defaults_of_IsFilled c h = rw (h.has_period, h.has_endpoint)
