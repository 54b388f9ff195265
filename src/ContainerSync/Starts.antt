-- ===== src/ContainerSync/Starts.antt =====
-- New containers are started, and what a pass has asked for can be told from its requests.
-- About pkg/containersync/worker.go.
use deviced.Base.{
  List, [], ◌∷◌, ◌++◌, some, true, Bool, Bytes, beq, beq→eq, beq_refl, length, length-append,
  append_assoc, ◌≡◌, refl, sym, ◌∙◌, ap, subst, arith, All-Elem, Elem, Bool-cases, Option-cases,
  inl, inr,
}
use deviced.Base.Assoc.{lookup, lookup-insert_self, lookup-insert-some}
use deviced.Docker.{ContainerCreateConfig, Call, History, Daemon}
use deviced.Docker.Made.{
  IsLater, IsLater-cons, IsMadeBetween, IsMadeBetween-cons, IsMadeBetween-last,
  IsMadeBetween-earlier, AreMadeBetween,
}
use deviced.Config.Document.{DevicedConfig}
use deviced.ContainerSync.State.{Plan}
use deviced.ContainerSync.Networks.{NetMap}
use deviced.ContainerSync.Execute.{
  delete_containers, has_network, create_container, create_containers, start_containers,
}
use deviced.ContainerSync.MoreRequests.{
  delete_containers-keeps, create_container-keeps, create_containers-keeps, start_containers-keeps,
}
use deviced.ContainerSync.Pass.{Env, execute}

module _ {V : Type 0} (k : Bytes) where
  pub lookup-Elem : (m : List (Bytes × V)) {v : V} → lookup k m ≡ some v → Elem (k, v) m
  unfolding lookup
  lookup-Elem [] e = absurd (cc)
  lookup-Elem ((j, w) ∷ m) {v} e = elim (Bool-cases (beq j k)) [
    | inl y ↦ let same : some w ≡ some v = (rw y at e) in inl (cc (beq→eq j k y))
    | inr n ↦ inr (lookup-Elem m (rw n at e))
  ]

  pub Elem-lookup : (m : List (Bytes × V)) (v : V) → Elem (k, v) m → (w : V) × (lookup k m ≡ some w)
  unfolding lookup
  Elem-lookup [] v e = elim e [ ]
  Elem-lookup ((j, w) ∷ m) v (inl e) =
      let same : j ≡ k = ap (λ (x : Bytes × V). x.0) e in (w, rw (same, beq_refl k) refl)
  Elem-lookup ((j, w) ∷ m) v (inr i) = elim (Bool-cases (beq j k)) [
    | inl y ↦ (w, rw y refl)
    | inr n ↦ let (u, e) = Elem-lookup m v i in (u, rw n e)
  ]

pub IsLater-trans : (h h' h'' : History) → IsLater h h' → IsLater h' h'' → IsLater h h''
IsLater-trans h h' h'' (made, e) (made', e') =
    (made' ++ made, e' ∙ ap (λ k. made' ++ k) e ∙ sym (append_assoc made' made h))

append_cancel : (xs ys : List Call) (zs : List Call) → xs ++ zs ≡ ys ++ zs → xs ≡ ys
append_cancel [] [] zs e = refl
append_cancel [] (y ∷ ys) zs e =
    let l : length zs ≡ length (y ∷ (ys ++ zs)) = ap length e in
    absurd (omega (arith, l, length-append ys zs))
append_cancel (x ∷ xs) [] zs e =
    let l : length (x ∷ (xs ++ zs)) ≡ length zs = ap length e in
    absurd (omega (arith, l, length-append xs zs))
append_cancel (x ∷ xs) (y ∷ ys) zs e =
    let heads : x ≡ y = cc in
    let tails : xs ++ zs ≡ ys ++ zs = cc in let same = append_cancel xs ys zs tails in cc

-- What holds of all requests between two histories holds of each.
pub AreMadeBetween-each :
    (P : Call → Type 0) (h h' : History) (c : Call)
    → AreMadeBetween P h h'
    → IsMadeBetween c h h'
    → P c
AreMadeBetween-each P h h' c (made, e, a) (made', e', m) =
    All-Elem P made c a (subst (λ xs. Elem c xs) (append_cancel made' made h (sym e' ∙ e)) m)

module _ (d : Daemon) (nn : Bytes → Bytes) (nets : NetMap) (id : Bytes) where
  -- A container that is to be started stays so.
  create_container-has :
      (c : ContainerCreateConfig) (starts : List (Bytes × Bool)) (h : History)
      → (b : Bool) × (lookup id starts ≡ some b)
      → (b : Bool) × (lookup id (create_container d nn nets c starts h).0 ≡ some b)
  unfolding create_container
  create_container-has c starts h has = elim (Bool-cases (has_network d nn nets c)) [
    | inr n ↦ rw n has
    | inl y ↦ elim (Option-cases (d.on_container_create h c)) [
      | inl n ↦ rw (y, n, create_container) has
      | inr (new, e) ↦ rw (y, e, create_container) (lookup-insert-some new id true starts has)
    ]
  ]

  create_containers-has :
      (ctrs : List ContainerCreateConfig) (starts : List (Bytes × Bool)) (h : History)
      → (b : Bool) × (lookup id starts ≡ some b)
      → (b : Bool) × (lookup id (create_containers d nn nets ctrs starts h).0 ≡ some b)
  unfolding create_containers
  create_containers-has [] starts h has = has
  create_containers-has (c ∷ ctrs) starts h has =
      let (starts', h') = create_container d nn nets c starts h in
      create_containers-has ctrs starts' h' (create_container-has c starts h has)

  module _ (c : ContainerCreateConfig) (known : has_network d nn nets c ≡ true) (h0 after : History)
      (answer : (k : History)
        → IsLater h0 k
        → IsLater (Call.container_create c ∷ k) after
        → d.on_container_create k c ≡ some id) where
    create_container-history :
        (starts : List (Bytes × Bool)) (h : History)
        → (create_container d nn nets c starts h).1 ≡ Call.container_create c ∷ h
    unfolding create_container
    create_container-history starts h = elim (Option-cases (d.on_container_create h c)) [
      | inl n ↦ rw (known, n, create_container) refl
      | inr (new, e) ↦ rw (known, e, create_container) refl
    ]

    create_container-new :
        (starts : List (Bytes × Bool)) (h : History)
        → IsLater h0 h
        → IsLater (Call.container_create c ∷ h) after
        → (b : Bool) × (lookup id (create_container d nn nets c starts h).0 ≡ some b)
    unfolding create_container
    create_container-new starts h from till =
        rw (known, answer h from till, create_container) (true, lookup-insert_self id true starts)

    create_containers-new :
        (ctrs : List ContainerCreateConfig) (starts : List (Bytes × Bool)) (h : History)
        → Elem c ctrs
        → IsLater h0 h
        → IsLater (create_containers d nn nets ctrs starts h).1 after
        → (b : Bool) × (lookup id (create_containers d nn nets ctrs starts h).0 ≡ some b)
    unfolding create_containers
    create_containers-new [] starts h m from till = elim m [ ]
    create_containers-new (x ∷ ctrs) starts h (inl e) from till =
        let (starts', h') = create_container d nn nets x starts h in
        let asked = Call.container_create c ∷ h in
        let now : IsLater asked h' =
          subst (λ y. IsLater asked (create_container d nn nets y starts h).1) (sym e)
            ([], create_container-history starts h) in
        let later =
          create_containers-keeps d (IsLater asked) (λ x k. IsLater-cons asked k x) nn nets ctrs
            starts' h' now in
        create_containers-has ctrs starts' h' (
          subst (λ y. (b : Bool) × (lookup id (create_container d nn nets y starts h).0 ≡ some b))
            (sym e) (create_container-new starts h from (IsLater-trans asked _ after later till)))
    create_containers-new (x ∷ ctrs) starts h (inr m) from till =
        let (starts', h') = create_container d nn nets x starts h in
        create_containers-new ctrs starts' h' m
          (create_container-keeps d (IsLater h0) (λ x k. IsLater-cons h0 k x) nn nets x starts h
            from)
          till

start_containers-asks :
    (d : Daemon) (ids : List (Bytes × Bool)) (h : History) (id : Bytes) (b : Bool)
    → Elem (id, b) ids
    → IsMadeBetween (Call.container_start id) h (start_containers ids h)
unfolding start_containers
start_containers-asks d [] h id b m = elim m [ ]
start_containers-asks d ((i, _) ∷ ids) h id b (inl e) =
    let call = Call.container_start id in
    let same : Call.container_start i ≡ call =
      ap (λ (x : Bytes × Bool). Call.container_start x.0) e in
    start_containers-keeps d (IsMadeBetween call h) (λ x k. IsMadeBetween-cons call h k x) ids _
      (IsMadeBetween-last call h h _ same ([], refl))
start_containers-asks d ((i, _) ∷ ids) h id b (inr m) =
    IsMadeBetween-earlier (Call.container_start id) h _ _
      (IsLater-cons h h (Call.container_start i) ([], refl))
      (start_containers-asks d ids (Call.container_start i ∷ h) id b m)

-- A container that the plan creates is started, under the id that Docker answers.
pub execute_starts :
    (env : Env) (cfg : DevicedConfig) (nets : NetMap) (plan : Plan) (h : History)
    (c : ContainerCreateConfig) (id : Bytes)
    → ((m : List (Bytes × Bool)) (e : Bytes × Bool) → Elem e m → Elem e (env.start_order m))
    → has_network env.daemon env.network_name nets c ≡ true
    → ((k : History)
        → IsLater h k
        → IsLater (Call.container_create c ∷ k) (execute env cfg nets plan h)
        → env.daemon.on_container_create k c ≡ some id)
    → Elem c plan.to_create
    → IsMadeBetween (Call.container_start id) h (execute env cfg nets plan h)
unfolding execute
execute_starts env cfg nets plan h c id walk known answer m =
    let entries = env.delete_order plan.to_delete in
    let h1 =
      delete_containers env.daemon env.reflection cfg.container_config.allow_self_delete entries
        h in
    let (starts, h2) =
      create_containers env.daemon env.network_name nets plan.to_create plan.to_start h1 in
    let deleted =
      delete_containers-keeps env.daemon (IsLater h) (λ x k. IsLater-cons h k x) env.reflection
        cfg.container_config.allow_self_delete entries h ([], refl) in
    let created =
      create_containers-keeps env.daemon (IsLater h) (λ x k. IsLater-cons h k x) env.network_name
        nets plan.to_create plan.to_start h1 deleted in
    let till =
      start_containers-keeps env.daemon (IsLater h2) (λ x k. IsLater-cons h2 k x)
        (env.start_order starts) h2 ([], refl) in
    let (b, has) =
      create_containers-new env.daemon env.network_name nets id c known h
        (start_containers (env.start_order starts) h2) answer plan.to_create plan.to_start h1 m
        deleted till in
    IsMadeBetween-earlier (Call.container_start id) h h2 _ created (
      start_containers-asks env.daemon (env.start_order starts) h2 id b
        (walk starts (id, b) (lookup-Elem id starts has)))
