-- ===== src/Common/Set.antt =====
-- `HashSet` of ids, as a list with no entry twice. The order of entries carries no meaning.
use Prim.Native.Nat.{ℕ}
use mathlib.Core.Path.{◌≡◌}
use mathlib.Core.Bool.{Bool, true, false}
use mathlib.Core.List.{List, [], ◌∷◌}
use native.Mathlib.Omega.{arith}
use artel.Common.Tests.{◌==◌, if◌then◌else◌}

-- `set.contains(&x)`
unfoldable pub contains : ℕ → List ℕ → Bool
contains x [] = false
contains x (y ∷ ys) = if y == x then true else contains x ys

-- `set.insert(x)`
unfoldable pub insert : ℕ → List ℕ → List ℕ
unfolding contains
insert x ys = if contains x ys then ys else x ∷ ys

-- `set.remove(&x)`
unfoldable pub remove : ℕ → List ℕ → List ℕ
remove x [] = []
remove x (y ∷ ys) = let rest = remove x ys in if y == x then rest else y ∷ rest

pub contains-insert :
    (x y : ℕ) (s : List ℕ) → contains y (insert x s) ≡ (if x == y then true else contains y s)
unfolding insert
contains-insert x y s = ground arith

pub contains-remove :
    (x y : ℕ) (s : List ℕ) → contains y (remove x s) ≡ (if x == y then false else contains y s)
unfolding contains remove
contains-remove x y [] = ground arith
contains-remove x y (z ∷ s) = ground (arith, contains-remove x y s)

pub ruleset set_laws = (contains-insert, contains-remove)
