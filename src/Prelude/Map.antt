-- ===== src/Prelude/Map.antt =====
-- The standard containers keyed by `uint64_t`: an unordered map as an association list, an
-- unordered set as a list, a multiset as a list that `insert` keeps in order.
use Prim.Native.Nat.{ℕ, ◌≤◌}
use mathlib.Core.Path.{◌≡◌, refl}
use mathlib.Core.Bool.{Bool, true, false}
use mathlib.Core.Logic.{inl, inr}
use mathlib.Core.Option.{Option, none, some}
use mathlib.Core.List.{List, [], ◌∷◌}
use native.Mathlib.Omega.{arith}
use coredb.Prelude.Tests.{◌==◌, leb, Option-cases, if◌then◌else◌, ◌>>=◌}

module _ {ℓ} {V : Type ℓ} where
  -- m.find(k)
  abbrev pub find : ℕ → List (ℕ × V) → Option V
  find k [] = none
  find k ((j, v) ∷ m) = if j == k then some v else find k m

  -- m[k] = v
  abbrev pub put : ℕ → V → List (ℕ × V) → List (ℕ × V)
  put k v [] = (k, v) ∷ []
  put k v ((j, w) ∷ m) = if j == k then (k, v) ∷ m else (j, w) ∷ put k v m

  pub find-put :
      (k j : ℕ) (v : V) (m : List (ℕ × V))
      → find j (put k v m) ≡ (if k == j then some v else find j m)
  find-put k j v [] = refl
  find-put k j v ((i, w) ∷ m) = ground (arith, find-put k j v m)

-- s.count(k) != 0
abbrev pub contains : ℕ → List ℕ → Bool
contains k [] = false
contains k (j ∷ s) = if j == k then true else contains k s

-- s.insert(k) on a set
abbrev pub add : ℕ → List ℕ → List ℕ
add k s = if contains k s then s else k ∷ s

-- s.erase(k) on a set
abbrev pub erase : ℕ → List ℕ → List ℕ
erase k [] = []
erase k (j ∷ s) = let rest = erase k s in if j == k then rest else j ∷ rest

pub contains-add :
    (k j : ℕ) (s : List ℕ) → contains j (add k s) ≡ (if k == j then true else contains j s)
contains-add k j s = ground (arith, same k s)
  where
    same : (k : ℕ) (s : List ℕ) → k ≡ j → contains k s ≡ contains j s
    same k s e = ground arith

pub contains-erase :
    (k j : ℕ) (s : List ℕ) → contains j (erase k s) ≡ (if k == j then false else contains j s)
contains-erase k j [] = ground arith
contains-erase k j (i ∷ s) = ground (arith, contains-erase k j s)

-- s.insert(k) on a multiset
abbrev pub insert_ordered : ℕ → List ℕ → List ℕ
insert_ordered k [] = k ∷ []
insert_ordered k (j ∷ s) = if leb k j then k ∷ j ∷ s else j ∷ insert_ordered k s

-- s.erase(s.find(k)) on a multiset: one occurrence goes, and `none` stands for `erase(end())`,
-- which is undefined.
abbrev pub erase_one : ℕ → List ℕ → Option (List ℕ)
erase_one k [] = none
erase_one k (j ∷ s) =
    let rest = erase_one k s in if j == k then some s else (rest >>= λ t. some (j ∷ t))

-- Increasing, and at least `lo`.
abbrev pub Ordered : ℕ → List ℕ → Type 0
Ordered lo [] = Unit
Ordered lo (j ∷ s) = (lo ≤ j) × Ordered j s

pub Ordered-mono : {lo hi : ℕ} (s : List ℕ) → lo ≤ hi → Ordered hi s → Ordered lo s
Ordered-mono [] h o = tt
Ordered-mono (j ∷ s) h o = (omega arith, o.1)

pub insert_ordered-Ordered :
    (lo k : ℕ) (s : List ℕ) → lo ≤ k → Ordered lo s → Ordered lo (insert_ordered k s)
insert_ordered-Ordered lo k [] h o = (h, tt)
insert_ordered-Ordered lo k (j ∷ s) h o = ground (arith, insert_ordered-Ordered j k s)

pub erase_one-Ordered :
    (lo k : ℕ) (s t : List ℕ) → Ordered lo s → erase_one k s ≡ some t → Ordered lo t
erase_one-Ordered lo k [] t o e = cc
erase_one-Ordered lo k (j ∷ s) t o e = elim (Option-cases (erase_one k s)) [
  | inl none? ↦ ground (arith, Ordered-mono {lo = lo} {hi = j} s)
  | inr (r, rest) ↦
      ground (arith, erase_one-Ordered j k s r o.1 rest, Ordered-mono {lo = lo} {hi = j} s)
]

-- No element of an ordered list is below its bound.
pub Ordered-contains : (lo k : ℕ) (s : List ℕ) → Ordered lo s → contains k s ≡ true → lo ≤ k
Ordered-contains lo k [] o h = cc
Ordered-contains lo k (j ∷ s) o h = ground (arith, Ordered-contains j k s)

pub contains-insert_ordered :
    (k j : ℕ) (s : List ℕ)
    → contains j (insert_ordered k s) ≡ (if k == j then true else contains j s)
contains-insert_ordered k j [] = refl
contains-insert_ordered k j (i ∷ s) = ground (arith, contains-insert_ordered k j s)

-- What one erasure leaves was there before.
pub contains-erase_one :
    (k j : ℕ) (s t : List ℕ) → erase_one k s ≡ some t → contains j t ≡ true → contains j s ≡ true
contains-erase_one k j [] t e h = cc
contains-erase_one k j (i ∷ s) t e h = elim (Option-cases (erase_one k s)) [
  | inl rest ↦ ground arith
  | inr (r, rest) ↦ ground (arith, contains-erase_one k j s r rest)
]
