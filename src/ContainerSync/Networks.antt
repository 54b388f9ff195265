-- ===== src/ContainerSync/Networks.antt =====
-- pkg/containersync/worker.go: `processNetworks`.
use deviced.Base.{List, [], ◌∷◌, none, some, Bytes, is_empty, if◌then◌else◌}
use deviced.Base.Assoc.{lookup, insert}
use deviced.Docker.{NetworkResource, Call, History, Daemon}
use deviced.Config.Document.{NetworkCreateRequest}

abbrev pub NetMap : Type 0
NetMap = List (Bytes × NetworkResource)

-- `for _, net := range list { netMap[net.Name] = net }`
unfoldable pub add_networks : NetMap → List NetworkResource → NetMap
add_networks nets [] = nets
add_networks nets (net ∷ list) = add_networks (insert net.name net nets) list

module _ (d : Daemon) where
  open d use {on_network_list, on_network_create, on_network_inspect}

  -- The part of the loop's body behind the two `continue`s.
  unfoldable pub create_network : NetworkCreateRequest → NetMap → History → NetMap × History
  create_network net nets h =
      let h' = Call.network_create net.name net.network_create ∷ h in
      elim (on_network_create h net.name) [
        | none ↦ (nets, h')
        | some id ↦ elim (on_network_inspect h' id) [
          | none ↦
              (insert net.name (record { id = id; name = [] }) nets, Call.network_inspect id ∷ h')
          | some resource ↦ (insert net.name resource nets, Call.network_inspect id ∷ h')
        ]
      ]

  unfoldable pub ensure_network : NetworkCreateRequest → NetMap → History → NetMap × History
  ensure_network net nets h =
      if is_empty net.name
      then (nets, h)
      else elim (lookup net.name nets) [ some _ ↦ (nets, h) | none ↦ create_network net nets h ]

  unfoldable pub ensure_networks : List NetworkCreateRequest → NetMap → History → NetMap × History
  ensure_networks [] nets h = (nets, h)
  ensure_networks (net ∷ targets) nets h =
      let (nets', h') = ensure_network net nets h in ensure_networks targets nets' h'

  -- The nil map of the error path reads as an empty one.
  unfoldable pub process_networks : List NetworkCreateRequest → History → NetMap × History
  process_networks targets h = elim (on_network_list h) [
    | none ↦ ([], Call.network_list ∷ h)
    | some list ↦ ensure_networks targets (add_networks [] list) (Call.network_list ∷ h)
  ]
