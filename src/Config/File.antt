-- ===== src/Config/File.antt =====
-- pkg/config/config.go: the configuration file. The file system is an argument over a type of its
-- states; YAML is the library github.com/go-yaml/yaml.
use deviced.Base.{
  Option, none, some, Bool, true, false, not, Bytes, if◌then◌else◌, ◌≡◌, ◌⊎◌, refl, inl, inr,
  Option-cases, Bool-cases,
}
use deviced.Config.Document.{DevicedConfig}
use deviced.Config.Defaults.{fill_with_defaults, IsFilled, fill_with_defaults-IsFilled}

-- `not_exist` is `os.IsNotExist` of the error of `os.Stat`; a write may fail and change nothing.
pub record FileSystem (World : Type 0) : Type 0 where
  pub not_exist : Bytes → World → Bool
  pub read_file : Bytes → World → Option Bytes
  pub write_file : Bytes → Bytes → World → World

-- `unmarshal` decodes into a document that it is given; with an error it may have changed a part. For a
-- null document it sets the pointer that it is given to nil: `none`.
pub record Yaml : Type 0 where
  pub marshal : DevicedConfig → Option Bytes
  pub unmarshal : Bytes → DevicedConfig → Option DevicedConfig × Bool

module _ {World : Type 0} (fs : FileSystem World) (yaml : Yaml) where
  unfoldable pub config_file_exists : Bytes → World → Bool
  config_file_exists path w = not (fs.not_exist path w)

  -- The error of the write is dropped.
  unfoldable pub write_config : Bytes → DevicedConfig → World → Bool × World
  write_config path c w = elim (yaml.marshal c) [
    | none ↦ (false, w)
    | some d ↦ (true, fs.write_file path d w)
  ]

  -- The document after the call, and whether there was no error; or a panic, where `FillWithDefaults`
  -- reads the nil pointer of a null document.
  unfoldable pub read_from : Bytes → DevicedConfig → World → Option (DevicedConfig × Bool)
  read_from path c w = elim (fs.read_file path w) [
    | none ↦ some (c, false)
    | some dat ↦
        let (decoded, parsed) = yaml.unmarshal dat c in
        elim decoded [
          | none ↦ if parsed then none else some (c, false)
          | some c' ↦ some (if parsed then (fill_with_defaults c', true) else (c', false))
        ]
  ]

  -- `none` is the panic of `ReadFrom`.
  unfoldable pub create_or_read :
      Bytes → DevicedConfig → World → Option (Bool × DevicedConfig × World)
  create_or_read path c w =
      if not (config_file_exists path w)
      then (let (written, w') = write_config path (fill_with_defaults c) w in
          some (written, fill_with_defaults c, w'))
      else elim (read_from path c w) [ none ↦ none | some r ↦ some (r.1, r.0, w) ]

  -- A read panics, or leaves the document as it was, or decodes the file into it.
  pub read_from-cases :
      (path : Bytes) (c : DevicedConfig) (w : World)
      → (read_from path c w ≡ none)
        ⊎ ((read_from path c w ≡ some (c, false))
            ⊎ ((dat : Bytes) × (d : DevicedConfig) × (fs.read_file path w ≡ some dat)
                × ((yaml.unmarshal dat c).0 ≡ some d)
                × ((read_from path c w ≡ some (d, false))
                    ⊎ (read_from path c w ≡ some (fill_with_defaults d, true)))))
  unfolding read_from
  read_from-cases path c w = elim (Option-cases (fs.read_file path w)) [
    | inl n ↦ inr (inl (rw (n, read_from) refl))
    | inr (dat, s) ↦ elim (Option-cases (yaml.unmarshal dat c).0) [
      | inl n ↦ elim (Bool-cases (yaml.unmarshal dat c).1) [
        | inl p ↦ inl (rw (s, read_from, n, read_from, p) refl)
        | inr f ↦ inr (inl (rw (s, read_from, n, read_from, f) refl))
      ]
      | inr (d, u) ↦ elim (Bool-cases (yaml.unmarshal dat c).1) [
        | inl p ↦ inr (inr (dat, d, s, u, inr (rw (s, read_from, u, read_from, p) refl)))
        | inr f ↦ inr (inr (dat, d, s, u, inl (rw (s, read_from, u, read_from, f) refl)))
      ]
    ]
  ]

  -- A start that gets past `CreateOrRead` has a document with the defaults filled in, whatever stood
  -- in the file and whether or not there was one; or it panics, or fails.
  pub create_or_read-cases :
      (path : Bytes) (c : DevicedConfig) (w : World)
      → (create_or_read path c w ≡ none)
        ⊎ ((after : Bool × DevicedConfig × World) × (create_or_read path c w ≡ some after)
            × ((after.0 ≡ false) ⊎ IsFilled after.1))
  unfolding create_or_read config_file_exists
  create_or_read-cases path c w = elim (Bool-cases (fs.not_exist path w)) [
    | inl missing ↦ inr (
      (
        (write_config path (fill_with_defaults c) w).0,
        fill_with_defaults c,
        (write_config path (fill_with_defaults c) w).1,
      ),
      rw missing refl,
      inr (fill_with_defaults-IsFilled c),
    )
    | inr there ↦ elim (read_from-cases path c w) [
      | inl e ↦ inl (rw (there, e, create_or_read) refl)
      | inr (inl e) ↦ inr ((false, c, w), rw (there, e, create_or_read) refl, inl refl)
      | inr (inr (dat, d, s, u, inl e)) ↦
          inr ((false, d, w), rw (there, e, create_or_read) refl, inl refl)
      | inr (inr (dat, d, s, u, inr e)) ↦ inr (
        (true, fill_with_defaults d, w),
        rw (there, e, create_or_read) refl,
        inr (fill_with_defaults-IsFilled d),
      )
    ]
  ]
