-- ===== src/ImageSync/RepoPulls.antt =====
-- What the image worker asks one repository for.
-- About pkg/imagesync/worker.go.
use deviced.Base.{
  List, [], ◌∷◌, Option, none, some, Bytes, ◌≡◌, refl, inl, inr, All, Any, Elem, Option-cases,
}
use deviced.Base.Assoc.{lookup_or}
use deviced.Config.Target.{TargetContainer}
use deviced.Config.Repository.{RemoteRepository}
use deviced.Docker.{Call, History, Daemon}
use deviced.Registry.Service.{ApiEndpoint, lookup_pull_endpoints}
use deviced.Distribution.{Connection}
use deviced.ImageSync.State.{ImageToFetch, Registries, Progress}
use deviced.ImageSync.Query.{
  library_image, service_config, connect_to, connect, fetch_tags, query_image, query_images,
}
use deviced.ImageSync.Pull.{pull_call, pull_image, pull_images}
use deviced.ImageSync.Pulls.{
  IsWantedPull, Extends, same, pull, other, Extends-trans, pull_image-Extends,
}
use deviced.ImageSync.Connections.{ConnectResult-cases}
use deviced.ImageSync.Fetches.{
  IsNamed, Offers, IsNeeded, IsOffer, IsFetch, lookup_or-IsOffer, query_image-IsFetch,
}

Extends-weaken :
    {W V : Call → Type 0} {h h' : History}
    → ((c : Call) → W c → V c)
    → Extends W h h'
    → Extends V h h'
Extends-weaken f same = same
Extends-weaken f (pull c w e) = pull c (f c w) (Extends-weaken f e)
Extends-weaken f (other c n e) = other c n (Extends-weaken f e)

module _ (d : Daemon) (r : Registries) (goarch : Bytes) (image_map : List (Bytes × List Bytes))
    (repos : List RemoteRepository) (targets : List TargetContainer) where
  -- The request pulls the image of a target, at a tag that is better than the local ones, from a
  -- configured repository that has listed this tag, with its prefix and credentials.
  pub record IsPassPull (call : Call) : Type 0 where
    pub target : TargetContainer
    pub repository : RemoteRepository
    pub image : Bytes
    pub tag : Bytes
    pub tags : List Bytes
    pub among : Elem target targets
    pub configured : Elem repository repos
    pub named : IsNamed target image
    pub needed : IsNeeded r goarch image_map target tags
    pub member : Elem tag tags
    pub offered : Offers r goarch image_map repository target tag
    pub request : call ≡ pull_call repository image tag

  abbrev pub Fetch : ImageToFetch → Type 0
  Fetch tf = IsFetch r goarch image_map repos targets tf

  wanted-IsPassPull :
      (tf : ImageToFetch)
      → Fetch tf
      → (tags : List Bytes) → ((tag : Bytes) → Elem tag tags → Elem tag tf.needed_tags)
      → (call : Call) → IsWantedPull tf tags call
      → IsPassPull call
  wanted-IsPassPull tf f [] sub call w = elim w [ ]
  wanted-IsPassPull tf f (tag ∷ tags) sub call (inl w) =
      from_some (lookup_or tag [] tf.available_at)
        (lookup_or-IsOffer r goarch image_map repos targets f.of_target tag tf.available_at
          f.offered)
        w
    where
      from_some :
          (regs : List RemoteRepository)
          → IsOffer r goarch image_map repos targets f.of_target (tag, regs)
          → Any (λ reg. call ≡ pull_call reg tf.target.image tag) regs
          → IsPassPull call
      from_some [] o m = elim m [ ]
      from_some (reg ∷ regs) ((i, o), os) (inl e) = record {
        target = f.of_target;
        repository = reg;
        image = tf.target.image;
        tag = tag;
        tags = tf.needed_tags;
        among = f.among;
        configured = i;
        named = f.named;
        needed = f.needed;
        member = sub tag (inl refl);
        offered = o;
        request = e;
      }
      from_some (reg ∷ regs) (o, os) (inr m) = from_some regs os m
  wanted-IsPassPull tf f (tag ∷ tags) sub call (inr w) =
      wanted-IsPassPull tf f tags (λ u m. sub u (inr m)) call w

  pub pull_images-Extends :
      (tfs : List ImageToFetch) (p : Progress)
      → All Fetch tfs
      → Extends IsPassPull p.history (pull_images d tfs p).history
  unfolding pull_images
  pull_images-Extends [] p a = same
  pull_images-Extends (tf ∷ tfs) p (f, a) =
      Extends-trans
        (Extends-weaken (wanted-IsPassPull tf f tf.needed_tags (λ tag m. m))
          (pull_image-Extends d tf p))
        (pull_images-Extends tfs (pull_image d tf p) a)

  connect-Extends :
      (rege : RemoteRepository) (name : Bytes) (endpoints : List ApiEndpoint) (h : History)
      → Extends IsPassPull h (connect r rege name endpoints h).1
  unfolding connect
  connect-Extends rege name [] h = same
  connect-Extends rege name (endp ∷ endpoints) h =
      let h1 = Call.registry_connect rege.url endp name ∷ h in
      elim (ConnectResult-cases r rege (connect_to r rege name endp h)) [
        | inl (err, f, q) ↦
            rw (q, connect)
              (Extends-trans (other _ (λ b. b) same) (connect-Extends rege name endpoints h1))
        | inr (c, f, q) ↦ rw (q, connect) (other _ (λ b. b) same)
      ]

  fetch_tags-Extends :
      (rege : RemoteRepository) (tf : ImageToFetch) (image : Bytes) (h : History)
      (found : Option Connection × History)
      → Extends IsPassPull h found.1
      → Extends IsPassPull h (fetch_tags r rege tf image found).1
  unfolding fetch_tags
  fetch_tags-Extends rege tf image h (none, h') e = e
  fetch_tags-Extends rege tf image h (some c, h') e = elim (Option-cases (r.on_tags h' c)) [
    | inl n ↦ rw (n, fetch_tags) (other _ (λ b. b) e)
    | inr (tags, n) ↦ rw (n, fetch_tags) (other _ (λ b. b) e)
  ]

  query_image-Extends :
      (rege : RemoteRepository) (host : Bytes) (tf : ImageToFetch) (h : History)
      → Extends IsPassPull h (query_image r rege host tf h).1
  unfolding query_image
  query_image-Extends rege host tf h =
      let image = library_image tf.target.image in
      let config = service_config r.net rege host in
      elim (Option-cases (r.lib.parse_named image)) [
        | inl n ↦ rw (n, query_image) same
        | inr (name, p) ↦ elim (Option-cases (lookup_pull_endpoints r.net r.certs config host)) [
          | inl n ↦ rw (p, query_image, n, query_image) same
          | inr (endpoints, l) ↦
              rw (p, query_image, l, query_image)
                (fetch_tags-Extends rege _ image h (connect r rege name endpoints h)
                  (connect-Extends rege name endpoints h))
        ]
      ]

  pub query_images-Extends :
      (rege : RemoteRepository) (host : Bytes) (tfs : List ImageToFetch) (h : History)
      → Elem rege repos
      → All Fetch tfs
      → let after = query_images r rege host tfs h in
        All Fetch after.0 × Extends IsPassPull h after.1
  unfolding query_images
  query_images-Extends rege host [] h i a = (tt, same)
  query_images-Extends rege host (tf ∷ tfs) h i (f, a) =
      let (tf', h') = query_image r rege host tf h in
      let (rest, more) = query_images-Extends rege host tfs h' i a in
      (
        (query_image-IsFetch r goarch image_map repos targets rege host tf h i f, rest),
        Extends-trans (query_image-Extends rege host tf h) more,
      )
