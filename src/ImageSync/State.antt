-- ===== src/ImageSync/State.antt =====
-- pkg/imagesync/worker.go: `imageToFetch`, and what a pass of the worker changes.
use deviced.Base.{List, Bool, Bytes, Option}
use deviced.Config.Target.{TargetContainer}
use deviced.Config.Repository.{RemoteRepository}
use deviced.Registry.Config.{Net}
use deviced.Registry.Certs.{CertStore}
use deviced.Registry.Ping.{HttpLibrary, Transport}
use deviced.Distribution.{Connection}
use deviced.Docker.{History}

-- `AvailableAt` maps a tag to the repositories that have it. The connection that the source keeps
-- beside each of them is never used again.
pub record ImageToFetch : Type 0 where
  pub fetch_any : Bool
  pub needed_tags : List Bytes
  pub available_at : List (Bytes × List RemoteRepository)
  pub target : TargetContainer

-- What a send on the wake channel of the container worker comes to: it is received, it waits for good,
-- or the channel is closed.
pub data Sent : Type 0 where
  received : Sent
  stuck : Sent
  closed : Sent

-- The surroundings of a pass: `url_host` is `url.Parse(…).Host`, `net` and `certs` are what pkg/registry reads,
-- `lib` is what it calls, `transport` answers the pings, `on_tags` is what a repository lists,
-- and `on_wake` is what the last send on the wake channel comes to. `none` stands for an error.
pub record Registries : Type 0 where
  pub url_host : Bytes → Option Bytes
  pub net : Net
  pub certs : CertStore
  pub lib : HttpLibrary
  pub transport : History → Transport
  pub on_tags : History → Connection → Option (List Bytes)
  pub on_wake : History → Sent

-- `UnsolvedReqs`, `shouldTriggerContainerCheck` and the requests so far.
pub record Progress : Type 0 where
  pub unsolved_reqs : Bool
  pub trigger : Bool
  pub history : History
