-- ===== src/Base/Bytes.antt =====
-- Little-endian integers in a byte buffer, written one behind another and read in the same order.
use Prim.Native.Nat.{ℕ, zero, suc, ◌+◌, ◌*◌, ◌/◌, ◌%◌, ◌^◌, ◌<◌}
use mathlib.Core.Path.{◌≡◌, refl, ap}
use mathlib.Core.List.{List, [], ◌∷◌, ◌++◌}
use native.Mathlib.Omega.{arith}
use native.Mathlib.Nat.{pow-suc}
use wisp_disk.Base.Lists.{length}

abbrev pub Bytes : Type 0
Bytes = List ℕ

-- A reader takes bytes from the front of the buffer.
abbrev pub Reader : Type 0 → Type 0
Reader A = Bytes → A × Bytes

infixl 5 ◌>>=◌
abbrev pub ◌>>=◌ : {A B : Type 0} → Reader A → (A → Reader B) → Reader B
◌>>=◌ m f bytes = let (a, rest) = m bytes in f a rest

abbrev pub pure : {A : Type 0} → A → Reader A
pure a bytes = (a, bytes)

-- The `w` bytes of an unsigned integer.
unfoldable pub le_bytes : ℕ → ℕ → Bytes
le_bytes zero n = []
le_bytes (suc w) n = n % 256 ∷ le_bytes w (n / 256)

-- A byte that the buffer does not have reads as 0.
unfoldable pub read_le : ℕ → Reader ℕ
read_le zero bytes = (0, bytes)
read_le (suc w) [] = (0, [])
read_le (suc w) (b ∷ bytes) = let (n, rest) = read_le w bytes in (b + 256 * n, rest)

pub length-le_bytes : (w n : ℕ) → length (le_bytes w n) ≡ w
unfolding le_bytes
length-le_bytes zero n = refl
length-le_bytes (suc w) n = ap suc (length-le_bytes w (n / 256))

pub read_le-le_bytes :
    (w n : ℕ) → n < 256 ^ w → (rest : Bytes) → read_le w (le_bytes w n ++ rest) ≡ (n, rest)
unfolding read_le le_bytes
read_le-le_bytes zero n h rest = ground arith
read_le-le_bytes (suc w) n h rest =
    ground (arith, pow-suc 256 w, read_le-le_bytes w (n / 256) (ground arith) rest)
