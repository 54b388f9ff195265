-- ===== src/Arch/Laws.antt =====
-- What `AppendArchTagSuffix` keeps and adds.
-- About pkg/arch/arch.go.
use deviced.Base.{
  suc, List, [], ◌∷◌, ◌++◌, append-nil, map, Bytes, length, ◌≡◌, refl, ap, sym, is_empty,
  if◌then◌else◌,
}
use deviced.Arch.{get_arch_tag_suffix, append_suffix, append_arch_tag_suffix}

append_suffix-map : (s : Bytes) (vs : List Bytes) → append_suffix s vs ≡ map (λ v. v ++ s) vs
unfolding append_suffix
append_suffix-map s [] = refl
append_suffix-map s (v ∷ vs) = rw (append_suffix-map s vs)

map_append_nil : (vs : List Bytes) → vs ≡ map (λ v. v ++ []) vs
map_append_nil [] = refl
map_append_nil (v ∷ vs) = λ i. sym (append-nil v) i ∷ map_append_nil vs i

-- On every architecture, the result has the suffix of that architecture behind each version, in
-- the same order: the early return for an empty suffix makes no difference.
pub append_arch_tag_suffix-map :
    (goarch : Bytes) (vs : List Bytes)
    → append_arch_tag_suffix goarch vs ≡ map (λ v. v ++ get_arch_tag_suffix goarch) vs
unfolding append_arch_tag_suffix
append_arch_tag_suffix-map goarch vs = split_suffix (get_arch_tag_suffix goarch)
  where
    split_suffix :
        (s : Bytes) → (if is_empty s then vs else append_suffix s vs) ≡ map (λ v. v ++ s) vs
    split_suffix [] = map_append_nil vs
    split_suffix (c ∷ s) = append_suffix-map (c ∷ s) vs

pub length-append_arch_tag_suffix :
    (goarch : Bytes) (vs : List Bytes) → length (append_arch_tag_suffix goarch vs) ≡ length vs
length-append_arch_tag_suffix goarch vs = rw append_arch_tag_suffix-map (length_map vs)
  where
    length_map :
        (xs : List Bytes) → length (map (λ v. v ++ get_arch_tag_suffix goarch) xs) ≡ length xs
    length_map [] = refl
    length_map (x ∷ xs) = ap suc (length_map xs)
