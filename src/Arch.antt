-- ===== src/Arch.antt =====
-- pkg/arch/arch.go: the suffix that Docker tags carry on ARM devices. `runtime.GOARCH` is the
-- argument `goarch`.
pub mod Laws
use deviced.Base.{List, [], ◌∷◌, ◌++◌, Bytes, codes, beq, is_empty, ◌||◌, if◌then◌else◌}

unfoldable pub get_arch_tag_suffix : Bytes → Bytes
get_arch_tag_suffix goarch =
    if beq goarch (codes "arm")
    then codes "-arm"
    else if beq goarch (codes "arm64")
    then codes "-arm"
    else []

-- The loop over `versions`: `fmt.Sprintf("%s%s", st, suffix)` into the same index.
unfoldable pub append_suffix : Bytes → List Bytes → List Bytes
append_suffix suffix [] = []
append_suffix suffix (st ∷ versions) = (st ++ suffix) ∷ append_suffix suffix versions

unfoldable pub append_arch_tag_suffix : Bytes → List Bytes → List Bytes
unfolding get_arch_tag_suffix append_suffix
append_arch_tag_suffix goarch versions =
    let suffix = get_arch_tag_suffix goarch in
    if is_empty suffix then versions else append_suffix suffix versions
