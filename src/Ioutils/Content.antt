-- ===== src/Ioutils/Content.antt =====
-- The bytes that wait in the pipe, after each kind of round.
-- About pkg/ioutils.
use deviced.Base.{
  ℕ, zero, suc, ◌+◌, ◌-◌, ◌≤◌, List, [], ◌∷◌, ◌++◌, append_assoc, append-nil, some, true, Bytes,
  leb, ◌==◌, take, drop, take-drop, length, length-append, ◌≡◌, refl, sym, ap, ◌∙◌, arith,
  Bool-cases, inl, inr,
}
use deviced.Ioutils.Buffer.{FixedBuffer, copied, write_buffer, read_buffer, buffer_len}
use deviced.Ioutils.BytesPipe.{
  BytesPipe, get_buffer, write_last, write_bufs, write_round, grow_round, Taken, put_before,
  read_bufs, ReadResult, got, panicked, read_round, block_threshold, next_cap, would_wait,
  read_closed,
}

-- The bytes that wait in the buffers.
abbrev pub content : List FixedBuffer → Bytes
content [] = []
content (b ∷ bs) = b.unread ++ content bs

length-drop : (n : ℕ) (xs : Bytes) → length (drop n xs) + length (take n xs) ≡ length xs
length-drop zero xs = omega arith
length-drop (suc n) [] = refl
length-drop (suc n) (x ∷ xs) = omega (arith, length-drop n xs)

content-append : (bs cs : List FixedBuffer) → content (bs ++ cs) ≡ content bs ++ content cs
content-append [] cs = refl
content-append (b ∷ bs) cs =
    rw (content-append bs cs) (sym (append_assoc b.unread (content bs) (content cs)))

nil-length : (xs : Bytes) → (length xs == 0) ≡ true → xs ≡ []
nil-length [] e = refl
nil-length (x ∷ xs) e = absurd (ground arith)

take_of-drop : (k : ℕ) (xs : Bytes) → (length (drop k xs) == 0) ≡ true → take k xs ≡ xs
take_of-drop k xs e =
    sym (append-nil (take k xs))
    ∙ (ap (λ d. take k xs ++ d) (sym (nil-length (drop k xs) e)) ∙ take-drop k xs)

-- The loop of `Read` does not panic, and takes the first bytes of the content.
read_bufs-content :
    (k : ℕ) (bs : List FixedBuffer) (len : ℕ)
    → len ≡ length (content bs)
    → (t : Taken) × (read_bufs k bs len ≡ some t)
      × (t.out ++ content t.buf ≡ content bs)
      × (t.buf_len ≡ length (content t.buf))
unfolding read_bufs put_before read_buffer buffer_len
read_bufs-content k [] len e = (record { out = []; buf = []; buf_len = 0 }, rw e, refl, refl)
read_bufs-content k (b ∷ bs) len e =
    let out = take k b.unread in
    let rest = drop k b.unread in
    let total = length-append b.unread (content bs) in
    let parts = length-drop k b.unread in
    elim (Bool-cases (len == 0)) [
      | inl z ↦ (record { out = []; buf = b ∷ bs; buf_len = 0 }, rw z, refl, ground arith)
      | inr nz ↦ elim (Bool-cases (length rest == 0)) [
        | inr more ↦ (
          record {
            out = out;
            buf = (record b { used = b.used ++ out; unread = rest }) ∷ bs;
            buf_len = len - length out;
          },
          rw (nz, more),
          sym (append_assoc out rest (content bs))
              ∙ ap (λ u. u ++ content bs) (take-drop k b.unread),
          omega (arith, e, total, parts, length-append rest (content bs)),
        )
        | inl all ↦
            let whole = take_of-drop k b.unread all in
            let left : len - length out ≡ length (content bs) =
              omega (arith, e, total, ap length whole) in
            elim (Bool-cases (length out == k)) [
              | inl full ↦ (
                record { out = out; buf = bs; buf_len = len - length out },
                rw (nz, all, full),
                ap (λ u. u ++ content bs) whole,
                left,
              )
              | inr short ↦
                  let (t, q, c, l) =
                    read_bufs-content (k - length out) bs (len - length out) left in
                  (
                    record t { out = out ++ t.out },
                    rw (nz, all, short, q, put_before),
                    append_assoc out t.out (content t.buf)
                        ∙ (ap (λ u. out ++ u) c ∙ ap (λ u. u ++ content bs) whole),
                    l,
                  )
            ]
      ]
    ]

write_last-content :
    (p : Bytes) (b : FixedBuffer) (bs : List FixedBuffer)
    → content (write_last p b bs).buf ≡ content (b ∷ bs) ++ take (write_last p b bs).count p
unfolding write_last write_buffer
write_last-content p b [] =
    append-nil (b.unread ++ take (copied p b) p)
    ∙ ap (λ u. u ++ take (copied p b) p) (sym (append-nil b.unread))
write_last-content p b (c ∷ bs) =
    rw (write_last-content p c bs) (sym (append_assoc b.unread (content (c ∷ bs)) _))

copied-le : (p : Bytes) (b : FixedBuffer) → copied p b ≤ length p
unfolding copied
copied-le p b = ground arith

write_last-count :
    (p : Bytes) (b : FixedBuffer) (bs : List FixedBuffer) → (write_last p b bs).count ≤ length p
unfolding write_last write_buffer
write_last-count p b [] = copied-le p b
write_last-count p b (c ∷ bs) = write_last-count p c bs

length-take : (n : ℕ) (xs : Bytes) → n ≤ length xs → length (take n xs) ≡ n
length-take zero xs le = refl
length-take (suc n) [] le = absurd (omega arith)
length-take (suc n) (x ∷ xs) le = omega (arith, length-take n xs)

write_bufs-content :
    (p : Bytes) (bs : List FixedBuffer)
    → (content (write_bufs p bs).buf ≡ content bs ++ take (write_bufs p bs).count p)
      × (length (take (write_bufs p bs).count p) ≡ (write_bufs p bs).count)
unfolding write_bufs get_buffer
write_bufs-content p [] = (
  write_last-content p (get_buffer 64) [],
  length-take _ p (write_last-count p (get_buffer 64) []),
)
write_bufs-content p (b ∷ bs) =
    (write_last-content p b bs, length-take _ p (write_last-count p b bs))

pub write_round-content :
    (p : Bytes) (n : ℕ) (bp : BytesPipe)
    → bp.buf_len ≡ length (content bp.buf)
    → (content (write_round p n bp).2.buf ≡ content bp.buf ++ (write_round p n bp).1)
      × ((write_round p n bp).2.buf_len ≡ length (content (write_round p n bp).2.buf))
unfolding write_round
write_round-content p n bp e =
    let (c, l) = write_bufs-content p bp.buf in
    elim (Bool-cases bp.closed) [
      | inl y ↦ rw y (sym (append-nil (content bp.buf)), e)
      | inr y ↦ rw y (
        c,
        omega (
          arith,
          e,
          l,
          ap length c,
          length-append (content bp.buf) (take (write_bufs p bp.buf).count p),
        ),
      )
    ]

pub grow_round-content :
    (p : Bytes) (n cap : ℕ) (bp : BytesPipe)
    → (content (grow_round p n cap bp).1.buf ≡ content bp.buf)
      × ((grow_round p n cap bp).1.buf_len ≡ bp.buf_len)
unfolding grow_round get_buffer
grow_round-content p n cap bp = elim (Bool-cases (leb block_threshold bp.buf_len)) [
  | inl y ↦ elim (Bool-cases bp.closed) [
    | inl c ↦ rw (y, c) (refl, refl)
    | inr c ↦ rw (y, c) (refl, refl)
  ]
  | inr y ↦
      rw y
        (content-append bp.buf (get_buffer (next_cap cap) ∷ []) ∙ append-nil (content bp.buf), refl)
]

-- What a round of `Read` gets, if anything, are the first bytes of the content; it does not panic.
abbrev pub IsRead : BytesPipe → ReadResult → Type 0
IsRead bp would_wait = Unit
IsRead bp read_closed = Unit
IsRead bp (got out after) =
    (out ++ content after.buf ≡ content bp.buf) × (after.buf_len ≡ length (content after.buf))
IsRead bp panicked = ⊥

pub read_round-IsRead :
    (k : ℕ) (bp : BytesPipe) → bp.buf_len ≡ length (content bp.buf) → IsRead bp (read_round k bp)
unfolding read_round
read_round-IsRead k bp e =
    let (t, q, c, l) = read_bufs-content k bp.buf bp.buf_len e in
    elim (Bool-cases (bp.buf_len == 0)) [
      | inl z ↦ elim (Bool-cases bp.closed) [ inl y ↦ rw (z, y) tt | inr y ↦ rw (z, y) tt ]
      | inr z ↦ rw (z, q, read_round) (c, l)
    ]
