-- ===== src/Sync/Lock.antt =====
-- internal/sync/service.go: advisoryLockKey, over hash/fnv's 64-bit FNV-1a.
use Prim.Native.Char.{code}
use Prim.Native.Nat.{bit_xor}
use cubesync.Prelude.{
  ℕ, ◌-◌, ◌*◌, ◌%◌, ◌^◌, String, List, [], ◌∷◌, ltb, if◌then◌else◌, ℤ, pos, negsuc,
}

-- The bytes of an ASCII text.
abbrev codes : String → List ℕ
codes String.[] = []
codes (String.◌∷◌ c s) = code c ∷ codes s

unfoldable pub hash_bytes : ℕ → List ℕ → ℕ
hash_bytes h [] = h
hash_bytes h (b ∷ bs) = hash_bytes (bit_xor h b * 1099511628211 % 2 ^ 64) bs

-- Each part, and a zero byte after it.
unfoldable pub hash_parts : ℕ → List String → ℕ
unfolding hash_bytes
hash_parts h [] = h
hash_parts h (p ∷ ps) = hash_parts (hash_bytes (hash_bytes h (codes p)) (0 ∷ [])) ps

-- Go's conversion of a uint64 to int64
unfoldable pub to_int64 : ℕ → ℤ
to_int64 n = if ltb n (2 ^ 63) then pos n else negsuc (2 ^ 64 - 1 - n)

unfoldable pub advisory_lock_key : List String → ℤ
unfolding hash_parts to_int64
advisory_lock_key parts = to_int64 (hash_parts 14695981039346656037 parts)
