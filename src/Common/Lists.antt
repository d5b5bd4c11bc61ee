-- ===== src/Common/Lists.antt =====
-- Lists measured by native numbers, under the library's names.
use Prim.Native.Nat.{ℕ, zero, suc, ◌+◌}
use mathlib.Core.Path.{◌≡◌, refl, ◌∙◌, ap, subst, sym}
use mathlib.Core.List.{List, [], ◌∷◌, ◌++◌}
use mathlib.Core.Bool.{Bool, true, false}
use mathlib.Core.Option.{Option, none, some}
use native.Mathlib.Omega.{arith}
use artel.Common.Tests.{if◌then◌else◌, Bool-cases}
use mathlib.Core.List.{Memᴰ}
use mathlib.Core.List.Memᴰ
use mathlib.Core.Logic.{◌↔◌, inl, inr}

module _ {ℓ} {A : Type ℓ} where
  abbrev pub length : List A → ℕ
  length [] = 0
  length (x ∷ xs) = suc (length xs)

  abbrev pub replicate : ℕ → A → List A
  replicate zero a = []
  replicate (suc n) a = a ∷ replicate n a

  abbrev pub get_elem? : List A → ℕ → Option A
  get_elem? [] i = none
  get_elem? (x ∷ xs) zero = some x
  get_elem? (x ∷ xs) (suc i) = get_elem? xs i

  -- The list behind its first entries.
  abbrev pub drop : ℕ → List A → List A
  drop zero xs = xs
  drop (suc n) [] = []
  drop (suc n) (x ∷ xs) = drop n xs

  pub drop-append : (xs ys : List A) → drop (length xs) (xs ++ ys) ≡ ys
  drop-append [] ys = refl
  drop-append (x ∷ xs) ys = drop-append xs ys

  -- `Vec::insert`; past the end it appends.
  unfoldable pub insert_at : ℕ → A → List A → List A
  insert_at zero x xs = x ∷ xs
  insert_at (suc n) x [] = x ∷ []
  insert_at (suc n) x (y ∷ ys) = y ∷ insert_at n x ys

  -- `iter().filter(p)`
  unfoldable pub filter : (A → Bool) → List A → List A
  filter p [] = []
  filter p (x ∷ xs) = if p x then x ∷ filter p xs else filter p xs

  -- `iter().any(p)`
  unfoldable pub any : (A → Bool) → List A → Bool
  any p [] = false
  any p (x ∷ xs) = if p x then true else any p xs

  pub length-append : (xs ys : List A) → length (xs ++ ys) ≡ length xs + length ys
  length-append [] ys = omega arith
  length-append (x ∷ xs) ys = omega (arith, length-append xs ys)

  filter_kept :
      (p : A → Bool) (x : A) (xs : List A) → p x ≡ true → filter p (x ∷ xs) ≡ x ∷ filter p xs
  unfolding filter
  filter_kept p x xs h = rw (filter, h) refl

  filter_dropped :
      (p : A → Bool) (x : A) (xs : List A) → p x ≡ false → filter p (x ∷ xs) ≡ filter p xs
  unfolding filter
  filter_dropped p x xs h = rw (filter, h) refl

  Memᴰ-filter_to :
      (p : A → Bool) (xs : List A) (a : A) → Memᴰ a (filter p xs) → Memᴰ a xs × (p a ≡ true)
  unfolding filter
  Memᴰ-filter_to p [] a m = absurd (Memᴰ.not-nil m)
  Memᴰ-filter_to p (x ∷ xs) a m = elim (Bool-cases (p x)) [
    | inl kept ↦ elim (Memᴰ.cases_cons (subst (Memᴰ a) (filter_kept p x xs kept) m)) [
      | inl same ↦ (Memᴰ.head same, ap p same ∙ kept)
      | inr later ↦ let (there, is) = Memᴰ-filter_to p xs a later in (Memᴰ.tail there, is)
    ]
    | inr dropped ↦
        let (there, is) =
          Memᴰ-filter_to p xs a (subst (Memᴰ a) (filter_dropped p x xs dropped) m) in
        (Memᴰ.tail there, is)
  ]

  Memᴰ-filter_from :
      (p : A → Bool) (xs : List A) (a : A) → Memᴰ a xs → p a ≡ true → Memᴰ a (filter p xs)
  unfolding filter
  Memᴰ-filter_from p [] a m is = absurd (Memᴰ.not-nil m)
  Memᴰ-filter_from p (x ∷ xs) a (Memᴰ.head same) is =
      rw (filter, sym (ap p same) ∙ is) (Memᴰ.head same)
  Memᴰ-filter_from p (x ∷ xs) a (Memᴰ.tail there) is =
      let rest = Memᴰ-filter_from p xs a there is in
      elim (Bool-cases (p x)) [
        | inl kept ↦ rw (filter, kept) (Memᴰ.tail rest)
        | inr dropped ↦ rw (filter, dropped) rest
      ]

  -- What a filter keeps is what is there and passes.
  pub Memᴰ-filter :
      (p : A → Bool) (xs : List A) (a : A) → Memᴰ a (filter p xs) ↔ (Memᴰ a xs × (p a ≡ true))
  Memᴰ-filter p xs a = (Memᴰ-filter_to p xs a, λ both. Memᴰ-filter_from p xs a both.0 both.1)
