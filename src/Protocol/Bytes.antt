-- ===== src/Protocol/Bytes.antt =====
-- Byte strings: their comparison, text literals, and big-endian numbers (`to_be_bytes`).
use Prim.Native.Char.{code}
use Prim.Native.String.{String}
use artel.Common.{
  ℕ, zero, suc, ◌/◌, ◌%◌, ◌^◌, ◌<◌, ◌≡◌, refl, Bool, true, false, List, [], ◌∷◌, ◌++◌, arith,
  length, length-append, if◌then◌else◌, ◌==◌,
}
use native.Mathlib.Nat.{pow-suc, pow-zero}

abbrev pub Bytes : Type 0
Bytes = List ℕ

-- The bytes of an ASCII literal.
abbrev pub codes : String → Bytes
codes String.[] = []
codes (String.◌∷◌ c s) = code c ∷ codes s

unfoldable pub bytes_eq : Bytes → Bytes → Bool
bytes_eq [] [] = true
bytes_eq (x ∷ xs) (y ∷ ys) = if x == y then bytes_eq xs ys else false
bytes_eq _ _ = false

pub bytes_eq→eq : (xs ys : Bytes) → bytes_eq xs ys ≡ true → xs ≡ ys
unfolding bytes_eq
bytes_eq→eq [] [] h = refl
bytes_eq→eq (x ∷ xs) (y ∷ ys) h = ground (arith, bytes_eq→eq xs ys)
bytes_eq→eq _ _ h = cc

pub bytes_eq_refl : (xs : Bytes) → bytes_eq xs xs ≡ true
unfolding bytes_eq
bytes_eq_refl [] = refl
bytes_eq_refl (x ∷ xs) = ground (arith, bytes_eq_refl xs)

-- `n.to_be_bytes()` of a number that is `w` bytes wide.
unfoldable pub be_bytes : ℕ → ℕ → Bytes
be_bytes zero n = []
be_bytes (suc w) n = be_bytes w (n / 256) ++ (n % 256) ∷ []

pub length-be_bytes : (w n : ℕ) → length (be_bytes w n) ≡ w
unfolding be_bytes
length-be_bytes zero n = refl
length-be_bytes (suc w) n =
    omega
      (arith, length-append (be_bytes w (n / 256)) ((n % 256) ∷ []), length-be_bytes w (n / 256))

-- Two byte strings that begin with parts of one length agree part by part.
pub append-eq_parts :
    (xs ys us vs : Bytes) → length xs ≡ length ys → xs ++ us ≡ ys ++ vs → (xs ≡ ys) × (us ≡ vs)
append-eq_parts [] [] us vs l e = (refl, e)
append-eq_parts [] (y ∷ ys) us vs l e = absurd (omega arith)
append-eq_parts (x ∷ xs) [] us vs l e = absurd (omega arith)
append-eq_parts (x ∷ xs) (y ∷ ys) us vs l e =
    ground (arith, append-eq_parts xs ys us vs (omega arith) (ground arith))

pub be_bytes_injective :
    (w n m : ℕ) → n < 256 ^ w → m < 256 ^ w → be_bytes w n ≡ be_bytes w m → n ≡ m
unfolding be_bytes
be_bytes_injective zero n m hn hm e = omega (arith, pow-zero 256)
be_bytes_injective (suc w) n m hn hm e =
    let (high, low) =
      append-eq_parts (be_bytes w (n / 256)) (be_bytes w (m / 256)) _ _
        (omega (arith, length-be_bytes w (n / 256), length-be_bytes w (m / 256))) e in
    let step : n / 256 ≡ m / 256 =
      be_bytes_injective w (n / 256) (m / 256) (omega (arith, pow-suc 256 w))
        (omega (arith, pow-suc 256 w)) high in
    let last : n % 256 ≡ m % 256 = ground arith in omega arith

-- A number of fixed width in front of a rest is read off in one way only.
pub be_bytes-append_injective :
    (w n m : ℕ) (us vs : Bytes)
    → n < 256 ^ w
    → m < 256 ^ w
    → be_bytes w n ++ us ≡ be_bytes w m ++ vs
    → (n ≡ m) × (us ≡ vs)
be_bytes-append_injective w n m us vs hn hm e =
    let (same, rest) =
      append-eq_parts (be_bytes w n) (be_bytes w m) us vs
        (omega (arith, length-be_bytes w n, length-be_bytes w m)) e in
    (be_bytes_injective w n m hn hm same, rest)

pub cons_injective : (x y : ℕ) (us vs : Bytes) → x ∷ us ≡ y ∷ vs → (x ≡ y) × (us ≡ vs)
cons_injective x y us vs e = ground arith

pub append_injective_right : (xs us vs : Bytes) → xs ++ us ≡ xs ++ vs → us ≡ vs
append_injective_right xs us vs e = (append-eq_parts xs xs us vs refl e).1
