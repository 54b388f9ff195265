-- ===== src/Registry/Terms.antt =====
-- The parts of a search term.
-- About pkg/registry.
use deviced.Base.{
  [], ◌∷◌, ◌++◌, Option, none, some, true, Bytes, codes, beq, beq→eq, ◌≡◌, ◌⊎◌, sym, ap, Bool-cases,
  Option-cases, inl, inr,
}
use deviced.Registry.Config.{index_name}
use deviced.Registry.Service.{split_slash, is_host, split_repos_search_term}

-- The two parts with a slash between them are the text.
abbrev Joins : Bytes → Option (Bytes × Bytes) → Type 0
Joins s none = Unit
Joins s (some parts) = parts.0 ++ (codes "/" ++ parts.1) ≡ s

split_slash-Joins : (s : Bytes) → Joins s (split_slash s)
unfolding split_slash
split_slash-Joins [] = tt
split_slash-Joins (c ∷ s) =
    let rest = split_slash-Joins s in
    elim (Bool-cases (beq (c ∷ []) (codes "/"))) [
      | inl y ↦ rw y (ap (λ t. t ++ s) (sym (beq→eq (c ∷ []) (codes "/") y)))
      | inr n ↦ elim (Option-cases (split_slash s)) [
        | inl f ↦ rw (n, f, split_slash) tt
        | inr (parts, f) ↦ rw (n, f, split_slash) (ap (λ t. c ∷ t) (rw f at rest))
      ]
    ]

-- A search term is for Docker's index as a whole, or it is the name of a host and the rest with a
-- slash between them.
pub split_repos_search_term-join :
    (term : Bytes)
    → (split_repos_search_term term ≡ (index_name, term))
      ⊎ ((is_host (split_repos_search_term term).0 ≡ true)
          × ((split_repos_search_term term).0 ++ (codes "/" ++ (split_repos_search_term term).1)
              ≡ term))
unfolding split_repos_search_term
split_repos_search_term-join term =
    let joins = split_slash-Joins term in
    elim (Option-cases (split_slash term)) [
      | inl e ↦ inl (rw (e, split_repos_search_term))
      | inr ((front, back), e) ↦ elim (Bool-cases (is_host front)) [
        | inl h ↦ inr (rw (e, split_repos_search_term, h) (h, (rw e at joins)))
        | inr h ↦ inl (rw (e, split_repos_search_term, h))
      ]
    ]
