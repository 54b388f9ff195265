-- ===== src/Tests/Ids.antt =====
-- Short and random identifiers.
use deviced.Base.{ℕ, zero, suc, some, Bytes, codes, beq, ◌≡◌, refl}
use deviced.Stringid.{short_len, is_short_id, truncate_id, generate_id, truncate_id-IsShort}

-- The first round gives a number.
abbrev source : ℕ → Bytes
source zero = codes "12"
source (suc n) = codes "1a"

second_id : generate_id source (λ s. s) (λ s. beq s (codes "12")) 2 0 ≡ some (codes "1a")
unfolding generate_id truncate_id deviced.Stringid.after_colon deviced.Stringid.trim_id
second_id = refl
