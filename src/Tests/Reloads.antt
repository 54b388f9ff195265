-- ===== src/Tests/Reloads.antt =====
-- Events of the watcher, for a file without text and one that is gone.
use deviced.Base.{
  List, [], ◌∷◌, Option, none, some, Bool, true, false, not, Bytes, codes, is_empty, if◌then◌else◌,
  All, ◌≡◌, refl,
}
use deviced.Config.Document.{DevicedConfig}
use deviced.Config.File.{FileSystem, Yaml}
use deviced.Config.Reload.{
  on_file_events, KeepsAbsent, LacksContainers, IsStale, StartsEmpty, removed_containers_stay,
}
use deviced.Tests.Fixtures.{device}

abbrev disk : FileSystem (Option Bytes)
disk = record {
  not_exist = λ path w. elim w [ none ↦ true | some d ↦ false ];
  read_file = λ path w. w;
  write_file = λ path d w. some d;
}

abbrev any_key : Bytes → Bytes → Bool
any_key dat key = not (is_empty dat)

-- A text that is not empty has a list of no containers.
abbrev yaml : Yaml
yaml = record {
  marshal = λ c. some (codes "containers: []");
  unmarshal = λ dat c.
      if any_key dat (codes "containers")
      then (some (record c { containers = [] }), true)
      else (some c, true);
}

yaml-KeepsAbsent : KeepsAbsent disk yaml any_key (codes "/conf")
yaml-KeepsAbsent dat c d h u =
    let decoded : some c ≡ some d = rw h at u in let same : c ≡ d = cc decoded in rw (← same) refl

abbrev files : List (Option Bytes)
files = some [] ∷ none ∷ []

disk-LacksContainers : All (LacksContainers disk yaml any_key (codes "/conf")) files
disk-LacksContainers =
    ((λ dat e. let same : [] ≡ dat = (cc e) in rw (← same) refl), ((λ dat e. absurd (cc e)), tt))

abbrev empty_device : DevicedConfig
empty_device = record device { containers = [] }

removed_containers_stay_example :
    All
      (IsStale disk yaml any_key (codes "/conf") device)
      (on_file_events disk yaml (codes "/conf") files device)
    × All (StartsEmpty disk yaml any_key (codes "/conf") empty_device) files
removed_containers_stay_example =
    removed_containers_stay disk yaml any_key (codes "/conf") files device empty_device
      yaml-KeepsAbsent disk-LacksContainers refl
