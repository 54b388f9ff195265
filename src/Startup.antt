-- ===== src/Startup.antt =====
-- cmd/root.go, and pkg/daemon/system.go: `Main` up to its loop, with pkg/reflection/deviced.go and the
-- `Init` of pkg/config/watcher.go. The clock, the signals and the threads come after it, in Workers.antt.
use deviced.Base.{
  ℕ, Option, none, some, Bool, true, false, not, Bytes, codes, [], is_empty, ◌==◌, if◌then◌else◌,
  ◌≡◌, ◌⊎◌, ◌≢◌, refl, sym, ◌∙◌, ap, arith, Option-cases, Bool-cases, inl, inr,
}
use mathlib.Core.Bool.{false≢true}
use deviced.Config.Document.{DevicedConfig}
use deviced.Config.Client.{TlsFiles, BuiltClient, env_client, new_client, failed, build_client}
use deviced.Config.Defaults.{IsFilled}
use deviced.Config.File.{FileSystem, Yaml, create_or_read, create_or_read-cases}

-- Whether Docker's library makes the client, whether Docker answers a ping, the host's name, the id of
-- the container with a name, and whether a watcher is made and takes a path.
pub record Surroundings : Type 0 where
  pub client_made : BuiltClient → Bool
  pub ping : Bool
  pub hostname : Option Bytes
  pub container_inspect : Bytes → Option Bytes
  pub new_watcher : Bool
  pub add_watch : Bytes → Bool

pub data StartResult : Type 0 where
  exit_with : ℕ → StartResult
  -- The loop starts with this configuration and reflection.
  main_loop : DevicedConfig → Option Bytes → StartResult
  panicked : StartResult

unfoldable pub inspect_current_container : Surroundings → Option Bytes
inspect_current_container env = elim env.hostname [
  | none ↦ none
  | some name ↦ env.container_inspect name
]

unfoldable pub build_reflection : Surroundings → Option Bytes
build_reflection env = inspect_current_container env

unfoldable pub init_config : Bool → ℕ
init_config read = if not read then 1 else 0

-- `BuildClient` without an error.
unfoldable pub is_client : Surroundings → BuiltClient → Bool
is_client env (failed e) = false
is_client env env_client = env.client_made env_client
is_client env (new_client endpoint tls) = env.client_made (new_client endpoint tls)

-- The `Init` of the container worker gives no error.
unfoldable pub init_workers : Surroundings → TlsFiles → DevicedConfig → ℕ
init_workers env files c =
    if not (is_client env (build_client files c.docker_config))
    then 1
    else if not env.ping
    then 1
    else 0

-- The `Init` of the watcher.
unfoldable pub init_watcher : Surroundings → Bytes → ℕ
init_watcher env path = if not env.new_watcher then 1 else if not (env.add_watch path) then 1 else 0

unfoldable pub init_watchers : Surroundings → Bytes → ℕ
init_watchers env path = let res = init_watcher env path in if not (res == 0) then res else 0

abbrev pub default_path : Bytes
default_path = codes "/etc/deviced.yaml"

-- `filepath.Abs`: the absolute path, or an error.
unfoldable pub to_absolute : (Bytes → Option Bytes) → Bytes → Bytes
to_absolute abs path =
    if not (is_empty path) then elim (abs path) [ none ↦ [] | some p ↦ p ] else path

-- `initConfig` of the command line: the path that the program gets.
unfoldable pub init_config_path : (Bytes → Option Bytes) → Bytes → Bytes
init_config_path abs path =
    let absolute = to_absolute abs path in if is_empty absolute then default_path else absolute

is_empty-false : (s : Bytes) → is_empty s ≡ false → s ≢ []
is_empty-false s e = λ q. ground (arith, ap is_empty q)

init_config_path_cases :
    (abs : Bytes → Option Bytes) (path : Bytes)
    → (init_config_path abs path ≢ [])
      × ((init_config_path abs path ≡ default_path) ⊎ (abs path ≡ some (init_config_path abs path)))
unfolding init_config_path to_absolute
init_config_path_cases abs path = elim (Bool-cases (is_empty path)) [
  | inl e ↦ rw (e, to_absolute, e) (is_empty-false default_path refl, inl refl)
  | inr n ↦ elim (Option-cases (abs path)) [
    | inl f ↦ rw (n, f, to_absolute) (is_empty-false default_path refl, inl refl)
    | inr (p, f) ↦ elim (Bool-cases (is_empty p)) [
      | inl e ↦ rw (n, f, to_absolute, e) (is_empty-false default_path refl, inl refl)
      | inr k ↦ rw (n, f, to_absolute, k) (is_empty-false p k, inr refl)
    ]
  ]
]

module _ {World : Type 0} (fs : FileSystem World) (yaml : Yaml) (files : TlsFiles)
    (env : Surroundings) where
  -- What follows `initConfig`.
  unfoldable pub start_workers : Bytes → DevicedConfig → StartResult
  start_workers path c =
      if not (init_workers env files c == 0)
      then exit_with (init_workers env files c)
      else if not (init_watchers env path == 0)
      then exit_with (init_watchers env path)
      else main_loop c (build_reflection env)

  unfoldable pub main : Bytes → DevicedConfig → World → StartResult
  main path c w = elim (create_or_read fs yaml path c w) [
    | none ↦ panicked
    | some r ↦
        if not (init_config r.0 == 0) then exit_with (init_config r.0) else start_workers path r.1
  ]

  -- What a start has that gets to the loop.
  pub record IsUp (path : Bytes) (c : DevicedConfig) : Type 0 where
    pub filled : IsFilled c
    pub client : is_client env (build_client files c.docker_config) ≡ true
    pub answers : env.ping ≡ true
    pub watched : env.add_watch path ≡ true

  start_workers_cases :
      (path : Bytes) (c : DevicedConfig)
      → IsFilled c
      → (IsUp path c × (start_workers path c ≡ main_loop c (build_reflection env)))
        ⊎ (start_workers path c ≡ exit_with 1)
  unfolding start_workers init_workers init_watchers init_watcher
  start_workers_cases path c h =
      elim (Bool-cases (is_client env (build_client files c.docker_config))) [
        | inr n ↦ inr (rw n)
        | inl made ↦ elim (Bool-cases env.ping) [
          | inr n ↦ inr (rw (made, n))
          | inl pong ↦ elim (Bool-cases env.new_watcher) [
            | inr n ↦ inr (rw (made, pong, n))
            | inl watcher ↦ elim (Bool-cases (env.add_watch path)) [
              | inr n ↦ inr (rw (made, pong, watcher, n))
              | inl added ↦ inl (
                record { filled = h; client = made; answers = pong; watched = added },
                rw (made, pong, watcher, added),
              )
            ]
          ]
        ]
      ]

  -- How a start can end that takes the configuration from this path.
  abbrev pub StartCases : Bytes → DevicedConfig → World → StartResult → Type 0
  StartCases path c w result =
      ((c' : DevicedConfig) × (w' : World) × (create_or_read fs yaml path c w ≡ some (true, c', w'))
        × IsUp path c'
        × (result ≡ main_loop c' (build_reflection env)))
      ⊎ ((result ≡ exit_with 1) ⊎ ((create_or_read fs yaml path c w ≡ none) × (result ≡ panicked)))

  main_cases : (path : Bytes) (c : DevicedConfig) (w : World) → StartCases path c w (main path c w)
  unfolding main init_config
  main_cases path c w = elim (create_or_read-cases fs yaml path c w) [
    | inl e ↦ inr (inr (e, rw (e, main) refl))
    | inr ((read, c', w'), e, state) ↦ elim (Bool-cases read) [
      | inr n ↦ inr (inl (rw (e, main, n) refl))
      | inl y ↦ elim state [
        | inl n ↦ absurd (false≢true (sym n ∙ y))
        | inr filled ↦ elim (start_workers_cases path c' filled) [
          | inl (up, s) ↦ inl (c', w', e ∙ ap (λ b. some (b, c', w')) y, up, rw (e, main, y) s)
          | inr s ↦ inr (inl (rw (e, main, y) s))
        ]
      ]
    ]
  ]

  -- The command: `Main` with the path of the command line, an absolute one if it can be made, or the
  -- default.
  unfoldable pub run_root : (Bytes → Option Bytes) → Bytes → DevicedConfig → World → StartResult
  run_root abs path c w = main (init_config_path abs path) c w

  -- The program takes its configuration from an absolute path or the default one, which is not
  -- empty. It gets to its loop with a configuration that has its defaults, a client that was
  -- made, a Docker that answers, and a watched file, and it goes on also where it cannot find its own
  -- container; or it ends with the code 1; or it panics, where the reading
  -- of the configuration does.
  pub run_root_cases :
      (abs : Bytes → Option Bytes) (given : Bytes) (c : DevicedConfig) (w : World)
      → let path = init_config_path abs given in
        (path ≢ [])
        × ((path ≡ default_path) ⊎ (abs given ≡ some path))
        × StartCases path c w (run_root abs given c w)
  unfolding run_root
  run_root_cases abs given c w =
      let (named, chosen) = init_config_path_cases abs given in
      (named, chosen, main_cases (init_config_path abs given) c w)
