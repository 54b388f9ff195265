-- ===== src/Docker/Made.antt =====
-- The requests that were made between two histories.
use deviced.Base.{
  ◌∷◌, ◌++◌, append_assoc, ◌≡◌, ◌∙◌, sym, ap, inl, inr, Elem, All, Any-append_left,
  Any-append_right,
}
use deviced.Docker.{Call, History}

-- Requests were made since `h`, or none.
abbrev pub IsLater : History → History → Type 0
IsLater h h' = (made : History) × (h' ≡ made ++ h)

-- The request is among those that were made.
abbrev pub IsMadeBetween : Call → History → History → Type 0
IsMadeBetween c h h' = (made : History) × (h' ≡ made ++ h) × Elem c made

-- Each of those satisfies `P`.
abbrev pub AreMadeBetween : (Call → Type 0) → History → History → Type 0
AreMadeBetween P h h' = (made : History) × (h' ≡ made ++ h) × All P made

pub IsLater-cons : (h0 h : History) (x : Call) → IsLater h0 h → IsLater h0 (x ∷ h)
IsLater-cons h0 h x (made, e) = (x ∷ made, ap (λ k. x ∷ k) e)

module _ (c : Call) (h0 h : History) where
  pub IsMadeBetween-last : (x : Call) → x ≡ c → IsLater h0 h → IsMadeBetween c h0 (x ∷ h)
  IsMadeBetween-last x same (made, e) = (x ∷ made, ap (λ k. x ∷ k) e, inl same)

  pub IsMadeBetween-cons : (x : Call) → IsMadeBetween c h0 h → IsMadeBetween c h0 (x ∷ h)
  IsMadeBetween-cons x (made, e, m) = (x ∷ made, ap (λ k. x ∷ k) e, inr m)

  pub IsMadeBetween-later :
      (h' : History) → IsLater h h' → IsMadeBetween c h0 h → IsMadeBetween c h0 h'
  IsMadeBetween-later h' (made', e') (made, e, m) = (
    made' ++ made,
    e' ∙ ap (λ k. made' ++ k) e ∙ sym (append_assoc made' made h0),
    Any-append_right (λ x. x ≡ c) made' made m,
  )

  pub IsMadeBetween-earlier :
      (h' : History) → IsLater h0 h → IsMadeBetween c h h' → IsMadeBetween c h0 h'
  IsMadeBetween-earlier h' (made', e') (made, e, m) = (
    made ++ made',
    e ∙ ap (λ k. made ++ k) e' ∙ sym (append_assoc made made' h0),
    Any-append_left (λ x. x ≡ c) made made' m,
  )

pub AreMadeBetween-cons :
    (P : Call → Type 0) (h0 h : History) (x : Call)
    → P x
    → AreMadeBetween P h0 h
    → AreMadeBetween P h0 (x ∷ h)
AreMadeBetween-cons P h0 h x px (made, e, a) = (x ∷ made, ap (λ k. x ∷ k) e, (px, a))
