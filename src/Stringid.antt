-- ===== src/Stringid.antt =====
-- pkg/stringid/stringid.go: short forms of identifiers and random ones. The random source, `hex` and
-- `strconv.ParseInt` are arguments; `rand n` is what the n-th round of the loop reads.
use deviced.Base.{
  ℕ, zero, suc, ◌+◌, ◌≤◌, ◌<◌, [], ◌∷◌, ◌++◌, Option, none, some, Bool, true, false, ◌&&◌, ◌||◌,
  Bytes, ltb, leb, ◌==◌, if◌then◌else◌, take, length, Lacks, ◌≡◌, refl, arith, Bool-cases, inl, inr,
}

abbrev pub short_len : ℕ
short_len = 12

-- `[a-z0-9]`
unfoldable pub is_id_byte : ℕ → Bool
is_id_byte c = (leb b'a' c && leb c b'z') || (leb b'0' c && leb c b'9')

unfoldable pub all_id_bytes : Bytes → Bool
all_id_bytes [] = true
all_id_bytes (c ∷ s) = is_id_byte c && all_id_bytes s

unfoldable pub is_short_id : Bytes → Bool
is_short_id id = length id == short_len && all_id_bytes id

-- What stands behind the first colon, if there is one.
unfoldable pub after_colon : Bytes → Option Bytes
after_colon [] = none
after_colon (c ∷ s) = let rest = after_colon s in if c == b':' then some s else rest

unfoldable pub trim_id : Bytes → Bytes
trim_id id = take (if ltb (length id) short_len then length id else short_len) id

unfoldable pub truncate_id : Bytes → Bytes
truncate_id id = elim (after_colon id) [ none ↦ trim_id id | some rest ↦ trim_id rest ]

module _ (rand : ℕ → Bytes) (hex : Bytes → Bytes) (is_int : Bytes → Bool) where
  -- The loop from its n-th round on: an id whose short form is a number is dropped.
  unfoldable pub generate_id : ℕ → ℕ → Option Bytes
  generate_id zero n = none
  generate_id (suc fuel) n =
      let later = generate_id fuel (n + 1) in
      if is_int (truncate_id (hex (rand n))) then later else some (hex (rand n))

  -- The loop returns the first id whose short form is no number, as soon as the random source gives
  -- one: fuel for the rounds up to it is enough.
  pub generate_id_first :
      (rounds fuel n : ℕ)
      → rounds < fuel
      → ((i : ℕ) → i < rounds → is_int (truncate_id (hex (rand (n + i)))) ≡ true)
      → is_int (truncate_id (hex (rand (n + rounds)))) ≡ false
      → generate_id fuel n ≡ some (hex (rand (n + rounds)))
  unfolding generate_id
  generate_id_first rounds zero n lt nums ok = absurd (omega arith)
  generate_id_first zero (suc fuel) n lt nums ok =
      let same : n + 0 ≡ n = omega arith in let first = (rw same at ok) in rw (same, first)
  generate_id_first (suc rounds) (suc fuel) n lt nums ok =
      let same : n + 0 ≡ n = omega arith in
      let moved : n + suc rounds ≡ n + 1 + rounds = omega arith in
      let number = nums 0 (omega arith) in
      let first = (rw same at number) in
      let rest =
        generate_id_first rounds fuel (n + 1) (omega arith)
          (λ i l. next i (nums (suc i) (omega arith))) (rw moved at ok) in
      rw (first, moved) rest
    where
      next :
          (i : ℕ)
          → is_int (truncate_id (hex (rand (n + suc i)))) ≡ true
          → is_int (truncate_id (hex (rand (n + 1 + i)))) ≡ true
      next i h = let moved : n + suc i ≡ n + 1 + i = omega arith in (rw moved at h)

all_id_bytes-take : (k : ℕ) (s : Bytes) → all_id_bytes s ≡ true → all_id_bytes (take k s) ≡ true
unfolding all_id_bytes
all_id_bytes-take zero s h = refl
all_id_bytes-take (suc k) [] h = refl
all_id_bytes-take (suc k) (c ∷ s) h = ground (arith, all_id_bytes-take k s)

length-take_enough : (k : ℕ) (s : Bytes) → k ≤ length s → length (take k s) ≡ k
length-take_enough zero s h = refl
length-take_enough (suc k) [] h = absurd (omega arith)
length-take_enough (suc k) (c ∷ s) h = omega (arith, length-take_enough k s)

after_colon-append : (a s : Bytes) → Lacks b':' a → after_colon (a ++ (b':' ∷ s)) ≡ some s
unfolding after_colon
after_colon-append [] s h = refl
after_colon-append (c ∷ a) s (hc, hs) = ground (arith, after_colon-append a s hs)

trim_id_long : (id : Bytes) → short_len ≤ length id → trim_id id ≡ take short_len id
unfolding trim_id
trim_id_long id long = elim (Bool-cases (ltb (length id) short_len)) [
  | inl y ↦ absurd (ground arith)
  | inr n ↦ rw n
]

-- A digest `algorithm:id` whose id has 12 bytes at least, all of them small letters or digits, is cut
-- to a text that looks like a short id: the first 12 bytes of the id.
pub truncate_id-IsShort :
    (algorithm id : Bytes)
    → Lacks b':' algorithm
    → short_len ≤ length id
    → all_id_bytes id ≡ true
    → (truncate_id (algorithm ++ (b':' ∷ id)) ≡ take short_len id)
      × (is_short_id (truncate_id (algorithm ++ (b':' ∷ id))) ≡ true)
unfolding truncate_id is_short_id
truncate_id-IsShort algorithm id clean long bytes =
    let e = after_colon-append algorithm id clean in
    let n : (length (take short_len id) == short_len) ≡ true =
      rw (length-take_enough short_len id long) in
    let b = all_id_bytes-take short_len id bytes in
    rw (e, truncate_id, trim_id_long id long) (refl, ground arith)
