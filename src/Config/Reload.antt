-- ===== src/Config/Reload.antt =====
-- pkg/daemon/system.go: the configuration in the loop of `Main`, which reads the file again after
-- each event of the watcher.
use deviced.Base.{
  List, [], ◌∷◌, none, some, Bool, true, false, Bytes, codes, ◌≡◌, ◌⊎◌, refl, ◌∙◌, All, inl, inr,
  Bool-cases,
}
use deviced.Config.Document.{DevicedConfig}
use deviced.Config.Defaults.{fill_with_defaults, IsFilled, fill_with_defaults-IsFilled}
use deviced.Config.File.{
  FileSystem, Yaml, read_from, config_file_exists, create_or_read, read_from-cases,
}

module _ {World : Type 0} (fs : FileSystem World) (yaml : Yaml) where
  -- One event for each state of the files: the document after it, and whether the workers are woken. A
  -- panic ends the list.
  unfoldable pub on_file_events : Bytes → List World → DevicedConfig → List (DevicedConfig × Bool)
  on_file_events path [] c = []
  on_file_events path (w ∷ ws) c = elim (read_from fs yaml path c w) [
    | none ↦ []
    | some r ↦ r ∷ on_file_events path ws r.0
  ]

  module _ (has_key : Bytes → Bytes → Bool) (path : Bytes) where
    -- YAML leaves a field alone whose key the text does not have.
    abbrev pub KeepsAbsent : Type 0
    KeepsAbsent =
        (dat : Bytes) (c d : DevicedConfig)
        → has_key dat (codes "containers") ≡ false
        → (yaml.unmarshal dat c).0 ≡ some d
        → d.containers ≡ c.containers

    -- The file, if it can be read, has no key for the containers.
    abbrev pub LacksContainers : World → Type 0
    LacksContainers w =
        (dat : Bytes) → fs.read_file path w ≡ some dat → has_key dat (codes "containers") ≡ false

    -- What is true after an event, where the program started with the containers of `c`.
    abbrev pub IsStale : DevicedConfig → DevicedConfig × Bool → Type 0
    IsStale c (after, woken) =
        (after.containers ≡ c.containers) × ((woken ≡ false) ⊎ IsFilled after)

    read_from-IsStale :
        (c start : DevicedConfig) (w : World)
        → KeepsAbsent
        → LacksContainers w
        → c.containers ≡ start.containers
        → (read_from fs yaml path c w ≡ none)
          ⊎ ((r : DevicedConfig × Bool) × (read_from fs yaml path c w ≡ some r) × IsStale start r)
    unfolding fill_with_defaults
    read_from-IsStale c start w keeps lacks same = elim (read_from-cases fs yaml path c w) [
      | inl e ↦ inl e
      | inr (inl e) ↦ inr ((c, false), e, (same, inl refl))
      | inr (inr (dat, d, s, u, inl e)) ↦
          inr ((d, false), e, (keeps dat c d (lacks dat s) u ∙ same, inl refl))
      | inr (inr (dat, d, s, u, inr e)) ↦ inr (
        (fill_with_defaults d, true),
        e,
        (keeps dat c d (lacks dat s) u ∙ same, inr (fill_with_defaults-IsFilled d)),
      )
    ]

    -- A start with this file, from the document `zero`, panics or has no containers.
    abbrev pub StartsEmpty : DevicedConfig → World → Type 0
    StartsEmpty zero w =
        (create_or_read fs yaml path zero w ≡ none)
        ⊎ ((after : Bool × DevicedConfig × World) × (create_or_read fs yaml path zero w
              ≡ some after)
            × (after.1.containers ≡ []))

    create_or_read-StartsEmpty :
        (zero : DevicedConfig) (w : World)
        → KeepsAbsent
        → LacksContainers w
        → zero.containers ≡ []
        → StartsEmpty zero w
    unfolding create_or_read fill_with_defaults
    create_or_read-StartsEmpty zero w keeps lacks empty =
        elim (Bool-cases (config_file_exists fs yaml path w)) [
          | inr missing ↦ rw missing (inr (_, refl, empty))
          | inl there ↦ elim (read_from-IsStale zero zero w keeps lacks refl) [
            | inl e ↦ inl (rw (there, e, create_or_read) refl)
            | inr (r, e, (stale, _)) ↦
                inr ((r.1, r.0, w), rw (there, e, create_or_read) refl, stale ∙ empty)
          ]
        ]

    on_file_events-IsStale :
        (ws : List World) (c start : DevicedConfig)
        → KeepsAbsent
        → All LacksContainers ws
        → c.containers ≡ start.containers
        → All (IsStale start) (on_file_events path ws c)
    unfolding on_file_events
    on_file_events-IsStale [] c start keeps lacks same = tt
    on_file_events-IsStale (w ∷ ws) c start keeps (l, lacks) same =
        elim (read_from-IsStale c start w keeps l same) [
          | inl e ↦ rw (e, on_file_events) tt
          | inr (r, e, stale) ↦
              rw (e, on_file_events)
                (stale, on_file_events-IsStale ws r.0 start keeps lacks stale.0)
        ]

    -- If the containers are removed from the file together with their key, the running program
    -- keeps them, whatever else the file says and however often it changes: after every event, up
    -- to a panic at a null document, the document has the containers of the start, and where the
    -- workers are woken it has its defaults. A program that starts with one of these files has no
    -- containers, or panics. YAML leaves alone what the text has no key for.
    pub removed_containers_stay :
        (ws : List World) (c zero : DevicedConfig)
        → KeepsAbsent
        → All LacksContainers ws
        → zero.containers ≡ []
        → All (IsStale c) (on_file_events path ws c) × All (StartsEmpty zero) ws
    removed_containers_stay ws c zero keeps lacks none_yet =
        (on_file_events-IsStale ws c c keeps lacks refl, restarts ws lacks)
      where
        restarts : (us : List World) → All LacksContainers us → All (StartsEmpty zero) us
        restarts [] a = tt
        restarts (u ∷ us) (l, a) =
            (create_or_read-StartsEmpty zero u keeps l none_yet, restarts us a)
