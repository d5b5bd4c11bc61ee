-- ===== src/Store/Fs/Log/Parts.antt =====
-- crates/artel-daemon/src/store/fs.rs: a frame of the log, and reading the front of a file.
use artel.Common.{
  ℕ, zero, suc, ◌+◌, ◌-◌, ◌*◌, ◌/◌, ◌%◌, ◌^◌, ◌≤◌, ◌<◌, min, ◌≡◌, refl, ap, sym, subst, ◌∙◌, true,
  false, Option, none, some, List, [], ◌∷◌, ◌++◌, append_assoc, arith, length, length-append,
}
use artel.Protocol.Bytes.{Bytes, be_bytes, length-be_bytes}
use artel.Store.Fs.{max_frame_size, SessionDir, Place}
use artel.Store.Fs.Log.{from_be_bytes, read_exact, take, is_empty}
use native.Mathlib.Nat.{pow-suc, pow-zero}

from_be_bytes-append :
    (h : ℕ) (xs ys : Bytes) → from_be_bytes h (xs ++ ys) ≡ from_be_bytes (from_be_bytes h xs) ys
unfolding from_be_bytes
from_be_bytes-append h [] ys = refl
from_be_bytes-append h (x ∷ xs) ys = from_be_bytes-append (h * 256 + x) xs ys

-- A number that fits its width is read back.
pub from_be_bytes-be_bytes : (w n : ℕ) → n < 256 ^ w → from_be_bytes 0 (be_bytes w n) ≡ n
unfolding from_be_bytes be_bytes
from_be_bytes-be_bytes zero n h = omega (arith, pow-zero 256)
from_be_bytes-be_bytes (suc w) n h = omega (
  arith,
  from_be_bytes-append 0 (be_bytes w (n / 256)) ((n % 256) ∷ []),
  from_be_bytes-be_bytes w (n / 256) (omega (arith, pow-suc 256 w)),
)

pub read_exact-append : (xs ys : Bytes) → read_exact (length xs) (xs ++ ys) ≡ some (xs, ys)
unfolding read_exact
read_exact-append [] ys = refl
read_exact-append (x ∷ xs) ys = rw (read_exact-append xs ys) refl

pub read_exact_short : (n : ℕ) (xs : Bytes) → length xs < n → read_exact n xs ≡ none
unfolding read_exact
read_exact_short zero xs h = absurd (omega arith)
read_exact_short (suc n) [] h = refl
read_exact_short (suc n) (x ∷ xs) h = rw (read_exact_short n xs (omega arith)) refl

pub length-take : (n : ℕ) (xs : Bytes) → length (take n xs) ≡ min n (length xs)
unfolding take
length-take zero xs = omega arith
length-take (suc n) [] = omega arith
length-take (suc n) (x ∷ xs) = omega (arith, length-take n xs)

pub take_all : (n : ℕ) (xs : Bytes) → length xs ≤ n → take n xs ≡ xs
unfolding take
take_all zero [] h = refl
take_all zero (x ∷ xs) h = absurd (omega arith)
take_all (suc n) [] h = refl
take_all (suc n) (x ∷ xs) h = ap (x ∷◌) (take_all n xs (omega arith))

pub take-append :
    (k : ℕ) (xs ys : Bytes) → length xs ≤ k → take k (xs ++ ys) ≡ xs ++ take (k - length xs) ys
unfolding take
take-append k [] ys h = ap (λ n. take n ys) (omega arith)
take-append zero (x ∷ xs) ys h = absurd (omega arith)
take-append (suc k) (x ∷ xs) ys h =
    ap (x ∷◌) (take-append k xs ys (omega arith) ∙ ap (λ n. xs ++ take n ys) (omega arith))

pub take_front : (xs ys : Bytes) → take (length xs) (xs ++ ys) ≡ xs
unfolding take
take_front [] ys = refl
take_front (x ∷ xs) ys = ap (x ∷◌) (take_front xs ys)

-- What `append_log` writes for a payload.
abbrev pub frame : Bytes → Bytes
frame payload = be_bytes 4 (length payload) ++ payload

abbrev pub frames : List Bytes → Bytes
frames [] = []
frames (p ∷ ps) = frame p ++ frames ps

abbrev pub Fits : List Bytes → Type 0
Fits [] = Unit {0}
Fits (p ∷ ps) = (length p ≤ max_frame_size) × Fits ps

pub frames-append : (ps qs : List Bytes) → frames (ps ++ qs) ≡ frames ps ++ frames qs
frames-append [] qs = refl
frames-append (p ∷ ps) qs =
    rw (frames-append ps qs) (sym (append_assoc (frame p) (frames ps) (frames qs)))

pub Fits-append :
    (ps : List Bytes) (q : Bytes) → Fits ps → length q ≤ max_frame_size → Fits (ps ++ q ∷ [])
Fits-append [] q h l = (l, tt)
Fits-append (p ∷ ps) q h l = (h.0, Fits-append ps q h.1 l)

pub read_exact_width :
    {w : ℕ} (xs ys : Bytes) → length xs ≡ w → read_exact w (xs ++ ys) ≡ some (xs, ys)
read_exact_width xs ys h =
    subst (λ w. read_exact w (xs ++ ys) ≡ some (xs, ys)) h (read_exact-append xs ys)

pub is_empty_width : (xs ys : Bytes) → 0 < length xs → is_empty (xs ++ ys) ≡ false
unfolding is_empty
is_empty_width [] ys h = absurd (omega arith)
is_empty_width (x ∷ xs) ys h = refl

pub is_empty→nil : (xs : Bytes) → is_empty xs ≡ true → xs ≡ []
unfolding is_empty
is_empty→nil [] h = refl
is_empty→nil (x ∷ xs) h = cc

abbrev pub place_with : SessionDir → Option Bytes → ℕ → Place
place_with dir floor left = record { dir = some dir; floor_file = floor; left = left }

pub length-frame : (p : Bytes) → length (frame p) ≡ 4 + length p
length-frame p =
    omega (arith, length-append (be_bytes 4 (length p)) p, length-be_bytes 4 (length p))
