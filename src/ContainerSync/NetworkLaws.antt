-- ===== src/ContainerSync/NetworkLaws.antt =====
-- The networks that the container worker creates, and those that it has afterwards.
-- About pkg/containersync/worker.go.
use deviced.Base.{none, some, false, Bytes, is_empty, ◌≡◌, ◌⊎◌}
use deviced.Base.Assoc.{lookup}
use deviced.Docker.{NetworkResource, Call, History, Daemon}
use deviced.Docker.Made.{IsMadeBetween, AreMadeBetween}
use deviced.Config.Document.{NetworkCreateRequest}
use deviced.ContainerSync.Networks.{NetMap}

-- The map has the name.
abbrev pub Has : NetMap → Bytes → Type 0
Has nets name = (net : NetworkResource) × (lookup name nets ≡ some net)

-- If the request creates a network, the network has a name and `listed` has none of this name.
abbrev pub CreatesMissing : NetMap → Call → Type 0
CreatesMissing listed (Call.network_create name c) =
    (is_empty name ≡ false) × (lookup name listed ≡ none)
CreatesMissing listed Call.network_list = Unit
CreatesMissing listed (Call.network_inspect n) = Unit
CreatesMissing listed Call.container_list = Unit
CreatesMissing listed Call.image_list = Unit
CreatesMissing listed (Call.exec_create c a) = Unit
CreatesMissing listed (Call.exec_attach n) = Unit
CreatesMissing listed (Call.container_stop c) = Unit
CreatesMissing listed (Call.container_remove c) = Unit
CreatesMissing listed (Call.container_create c) = Unit
CreatesMissing listed (Call.container_start c) = Unit
CreatesMissing listed (Call.image_pull r a) = Unit
CreatesMissing listed (Call.image_tag s t) = Unit
CreatesMissing listed (Call.registry_connect u e i) = Unit
CreatesMissing listed (Call.registry_tags u i) = Unit
CreatesMissing listed Call.wake_containers = Unit

-- The network is in the map, or Docker was asked to create it since `h0`.
abbrev pub IsServed : NetMap → History → History → NetworkCreateRequest → Type 0
IsServed nets h0 h net =
    Has nets net.name ⊎ IsMadeBetween (Call.network_create net.name net.network_create) h0 h

module _ (d : Daemon) (listed : NetMap) (h0 : History) where
  -- What one round of the loop keeps.
  abbrev Keeps : NetMap × History → NetMap × History → Type 0
  Keeps before after =
      ((n : Bytes) → Has before.0 n → Has after.0 n)
      × ((c : Call) → IsMadeBetween c h0 before.1 → IsMadeBetween c h0 after.1)
      × (AreMadeBetween (CreatesMissing listed) h0 before.1
          → AreMadeBetween (CreatesMissing listed) h0 after.1)
