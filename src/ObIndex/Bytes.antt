-- ===== src/ObIndex/Bytes.antt =====
-- The index as a map from the bytes of a block to where they lie, which is what a reader sees.
use faststore.Prelude.{
  ℕ, ◌+◌, ◌-◌, ◌≡◌, refl, Bool, List, [], ◌∷◌, ◌++◌, Option, none, some, arith, ltb, leb, ◌&&◌,
  if◌then◌else◌,
}
use faststore.Types.{ObSliceEntry, ObSliceType, FsTrunkIdInfo, end_of}
use faststore.ObIndex.Carve.{lefts, rights, overwrite, carve}

-- The place of one byte: the kind of its slice, the store path, the trunk, and the offset in it.
pub record Place : Type 0 where
  pub kind : ObSliceType
  pub store : ℕ
  pub id_info : FsTrunkIdInfo
  pub position : ℕ

abbrev pub place_in : ObSliceEntry → ℕ → Place
place_in s x = record {
  kind = s.slice_type;
  store = s.space.store;
  id_info = s.space.id_info;
  position = s.space.offset + (x - s.ssize.offset);
}

abbrev pub holds : ObSliceEntry → ℕ → Bool
holds s x = leb s.ssize.offset x && ltb x (end_of s)

unfoldable pub byte_at : ℕ → List ObSliceEntry → Option Place
byte_at x [] = none
byte_at x (s ∷ l) = if holds s x then some (place_in s x) else byte_at x l

pub byte_at-append :
    (x : ℕ) (xs ys : List ObSliceEntry)
    → byte_at x (xs ++ ys) ≡ elim (byte_at x xs) [ none ↦ byte_at x ys | some p ↦ some p ]
unfolding byte_at
byte_at-append x [] ys = refl
byte_at-append x (s ∷ xs) ys = ground (arith, byte_at-append x xs ys)

pub byte_at-lefts :
    (x o : ℕ) (l : List ObSliceEntry)
    → byte_at x (lefts o l) ≡ (if ltb x o then byte_at x l else none)
unfolding byte_at lefts
byte_at-lefts x o [] = ground arith
byte_at-lefts x o (s ∷ l) = ground (arith, byte_at-lefts x o l)

pub byte_at-rights :
    (x e : ℕ) (l : List ObSliceEntry)
    → byte_at x (rights e l) ≡ (if leb e x then byte_at x l else none)
unfolding byte_at rights
byte_at-rights x e [] = ground arith
byte_at-rights x e (s ∷ l) = ground (arith, byte_at-rights x e l)

-- A byte of the new slice lies in it; any other byte lies where it was.
pub byte_at-overwrite :
    (x : ℕ) (n : ObSliceEntry) (l : List ObSliceEntry)
    → byte_at x (overwrite n l) ≡ (if holds n x then some (place_in n x) else byte_at x l)
unfolding overwrite byte_at
byte_at-overwrite x n l = ground (
  arith,
  byte_at-append x (lefts n.ssize.offset l) (n ∷ rights (end_of n) l),
  byte_at-lefts x n.ssize.offset l,
  byte_at-rights x (end_of n) l,
)

-- A byte of the range is nowhere; any other byte lies where it was.
pub byte_at-carve :
    (x o n : ℕ) (l : List ObSliceEntry)
    → byte_at x (carve o (o + n) l) ≡ (if leb o x && ltb x (o + n) then none else byte_at x l)
unfolding carve
byte_at-carve x o n l = ground (
  arith,
  byte_at-append x (lefts o l) (rights (o + n) l),
  byte_at-lefts x o l,
  byte_at-rights x (o + n) l,
)
