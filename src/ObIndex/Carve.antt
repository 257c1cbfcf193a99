-- ===== src/ObIndex/Carve.antt =====
-- What add_slice and delete_slices are for, on a plain list of slices: the pieces on the two sides of
-- a range are kept, and a slice that reaches over an end of the range is cut there.
use faststore.Prelude.{
  ℕ, ◌+◌, ◌-◌, ◌≤◌, ◌<◌, ◌≡◌, refl, sym, ap, ◌∙◌, List, [], ◌∷◌, ◌++◌, All, arith, ltb, leb,
  if◌then◌else◌, min, max, append_assoc,
}
use faststore.Types.{ObSliceEntry, end_of}
use faststore.ObIndex.Defs.{cut}

-- The slices follow one another, from `lo` on, and none is empty.
abbrev pub Wf : ℕ → List ObSliceEntry → Type 0
Wf lo [] = Unit {0}
Wf lo (s ∷ l) = (lo ≤ s.ssize.offset) × (0 < s.ssize.length) × Wf (end_of s) l

abbrev pub Under : ℕ → List ObSliceEntry → Type 0
Under b = All (λ s. s.ssize.offset < b)

abbrev pub Beyond : ℕ → List ObSliceEntry → Type 0
Beyond b = All (λ s. b < s.ssize.offset)

abbrev pub From : ℕ → List ObSliceEntry → Type 0
From b = All (λ s. b ≤ s.ssize.offset)

abbrev pub EndsBy : ℕ → List ObSliceEntry → Type 0
EndsBy b = All (λ s. end_of s ≤ b)

pub left_of : ℕ → ObSliceEntry → List ObSliceEntry
left_of o s =
    if leb (end_of s) o
    then s ∷ []
    else if ltb s.ssize.offset o
    then cut s s.ssize.offset (o - s.ssize.offset) ∷ []
    else []

pub right_of : ℕ → ObSliceEntry → List ObSliceEntry
right_of e s =
    if leb e s.ssize.offset
    then s ∷ []
    else if ltb e (end_of s)
    then cut s e (end_of s - e) ∷ []
    else []

unfoldable pub lefts : ℕ → List ObSliceEntry → List ObSliceEntry
unfolding left_of
lefts o [] = []
lefts o (s ∷ l) = left_of o s ++ lefts o l

unfoldable pub rights : ℕ → List ObSliceEntry → List ObSliceEntry
unfolding right_of
rights e [] = []
rights e (s ∷ l) = right_of e s ++ rights e l

-- The list after a slice was written over it, and after a range was deleted from it.
unfoldable pub overwrite : ObSliceEntry → List ObSliceEntry → List ObSliceEntry
overwrite n l = lefts n.ssize.offset l ++ n ∷ rights (end_of n) l

unfoldable pub carve : ℕ → ℕ → List ObSliceEntry → List ObSliceEntry
carve o e l = lefts o l ++ rights e l

unfoldable pub total : List ObSliceEntry → ℕ
total [] = 0
total (s ∷ l) = s.ssize.length + total l

-- How many bytes of the range `o` to `e` the slices cover.
unfoldable pub covered : ℕ → ℕ → List ObSliceEntry → ℕ
covered o e [] = 0
covered o e (s ∷ l) = (min (end_of s) e - max s.ssize.offset o) + covered o e l

pub Wf-mono : (l : List ObSliceEntry) (a b : ℕ) → a ≤ b → Wf b l → Wf a l
Wf-mono [] a b h w = tt
Wf-mono (s ∷ l) a b h w = (omega arith, w.1, w.2)

pub Wf-append :
    (xs ys : List ObSliceEntry) (a b : ℕ)
    → a ≤ b
    → Wf a xs
    → EndsBy b xs
    → Wf b ys
    → Wf a (xs ++ ys)
Wf-append [] ys a b h w n v = Wf-mono ys a b h v
Wf-append (s ∷ xs) ys a b h w n v = (w.0, w.1, Wf-append xs ys (end_of s) b n.0 w.2 n.1 v)

pub Wf-drop : (xs ys : List ObSliceEntry) (b : ℕ) → Wf b (xs ++ ys) → Wf b ys
Wf-drop [] ys b w = w
Wf-drop (s ∷ xs) ys b w = Wf-mono ys b (end_of s) (omega arith) (Wf-drop xs ys (end_of s) w.2)

pub Wf-take : (xs ys : List ObSliceEntry) (b : ℕ) → Wf b (xs ++ ys) → Wf b xs
Wf-take [] ys b w = tt
Wf-take (s ∷ xs) ys b w = (w.0, w.1, Wf-take xs ys (end_of s) w.2)

pub Wf-From : (l : List ObSliceEntry) (a b : ℕ) → a ≤ b → Wf b l → From a l
Wf-From [] a b h w = tt
Wf-From (s ∷ l) a b h w = (omega arith, Wf-From l a (end_of s) (omega arith) w.2)

pub Wf-Beyond : (l : List ObSliceEntry) (a b : ℕ) → a < b → Wf b l → Beyond a l
Wf-Beyond [] a b h w = tt
Wf-Beyond (s ∷ l) a b h w = (omega arith, Wf-Beyond l a (end_of s) (omega arith) w.2)

pub Under-mono : (l : List ObSliceEntry) (a b : ℕ) → a ≤ b → Under a l → Under b l
Under-mono [] a b h w = tt
Under-mono (s ∷ l) a b h w = (omega arith, Under-mono l a b h w.1)

pub EndsBy-mono : (l : List ObSliceEntry) (a b : ℕ) → a ≤ b → EndsBy a l → EndsBy b l
EndsBy-mono [] a b h w = tt
EndsBy-mono (s ∷ l) a b h w = (omega arith, EndsBy-mono l a b h w.1)

pub EndsBy-Under : (l : List ObSliceEntry) (a b : ℕ) → Wf a l → EndsBy b l → Under b l
EndsBy-Under [] a b w n = tt
EndsBy-Under (s ∷ l) a b w n = (omega arith, EndsBy-Under l (end_of s) b w.2 n.1)

pub lefts-append :
    (o : ℕ) (xs ys : List ObSliceEntry) → lefts o (xs ++ ys) ≡ lefts o xs ++ lefts o ys
unfolding lefts
lefts-append o [] ys = refl
lefts-append o (s ∷ xs) ys =
    ap (◌++◌ (left_of o s)) (lefts-append o xs ys) ∙ sym (append_assoc (left_of o s) _ _)

pub rights-append :
    (e : ℕ) (xs ys : List ObSliceEntry) → rights e (xs ++ ys) ≡ rights e xs ++ rights e ys
unfolding rights
rights-append e [] ys = refl
rights-append e (s ∷ xs) ys =
    ap (◌++◌ (right_of e s)) (rights-append e xs ys) ∙ sym (append_assoc (right_of e s) _ _)

pub lefts-EndsBy : (o : ℕ) (l : List ObSliceEntry) → EndsBy o l → lefts o l ≡ l
unfolding lefts
lefts-EndsBy o [] h = refl
lefts-EndsBy o (s ∷ l) h = ground (arith, lefts-EndsBy o l h.1)

pub rights-EndsBy : (l : List ObSliceEntry) (a e : ℕ) → Wf a l → EndsBy e l → rights e l ≡ []
unfolding rights
rights-EndsBy [] a e w h = refl
rights-EndsBy (s ∷ l) a e w h = ground (arith, rights-EndsBy l (end_of s) e w.2 h.1)

pub lefts-From : (l : List ObSliceEntry) (a o : ℕ) → o ≤ a → Wf a l → lefts o l ≡ []
unfolding lefts
lefts-From [] a o h w = refl
lefts-From (s ∷ l) a o h w = ground (arith, lefts-From l (end_of s) o (omega arith) w.2)

pub rights-From : (l : List ObSliceEntry) (a e : ℕ) → e ≤ a → Wf a l → rights e l ≡ l
unfolding rights
rights-From [] a e h w = refl
rights-From (s ∷ l) a e h w = ground (arith, rights-From l (end_of s) e (omega arith) w.2)

pub covered-From : (l : List ObSliceEntry) (a o e : ℕ) → e ≤ a → Wf a l → covered o e l ≡ 0
unfolding covered
covered-From [] a o e h w = refl
covered-From (s ∷ l) a o e h w = omega (arith, covered-From l (end_of s) o e (omega arith) w.2)

pub covered-EndsBy : (l : List ObSliceEntry) (o e : ℕ) → EndsBy o l → covered o e l ≡ 0
unfolding covered
covered-EndsBy [] o e h = refl
covered-EndsBy (s ∷ l) o e h = omega (arith, covered-EndsBy l o e h.1)

pub covered-append :
    (xs ys : List ObSliceEntry) (o e : ℕ) → covered o e (xs ++ ys) ≡ covered o e xs + covered o e ys
unfolding covered
covered-append [] ys o e = omega arith
covered-append (s ∷ xs) ys o e = omega (arith, covered-append xs ys o e)

pub total-append : (xs ys : List ObSliceEntry) → total (xs ++ ys) ≡ total xs + total ys
unfolding total
total-append [] ys = omega arith
total-append (s ∷ xs) ys = omega (arith, total-append xs ys)

total-sides :
    (s : ObSliceEntry) (o e : ℕ)
    → o ≤ e
    → total (left_of o s) + (min (end_of s) e - max s.ssize.offset o) + total (right_of e s)
      ≡ s.ssize.length
unfolding total left_of right_of
total-sides s o e h = ground arith

-- The kept pieces and the covered bytes make up the whole.
pub total-lefts-rights :
    (l : List ObSliceEntry) (o e : ℕ)
    → o ≤ e
    → total (lefts o l) + covered o e l + total (rights e l) ≡ total l
unfolding lefts rights covered total
total-lefts-rights [] o e h = refl
total-lefts-rights (s ∷ l) o e h = omega (
  arith,
  total-lefts-rights l o e h,
  total-sides s o e h,
  total-append (left_of o s) (lefts o l),
  total-append (right_of e s) (rights e l),
)

-- The pieces left of `o` are in order and end by `o`; those right of `e` begin at `e` or later.
pub lefts-Wf : (l : List ObSliceEntry) (a o : ℕ) → Wf a l → Wf a (lefts o l)
unfolding lefts
lefts-Wf [] a o w = tt
lefts-Wf (s ∷ l) a o w = ground (arith, lefts-Wf l (end_of s) o w.2, lefts-From l (end_of s) o)

pub lefts-ends : (l : List ObSliceEntry) (o : ℕ) → EndsBy o (lefts o l)
unfolding lefts
lefts-ends [] o = tt
lefts-ends (s ∷ l) o = ground (arith, lefts-ends l o)

pub rights-Wf : (l : List ObSliceEntry) (a e : ℕ) → Wf a l → Wf e (rights e l)
unfolding rights
rights-Wf [] a e w = tt
rights-Wf (s ∷ l) a e w =
    ground (arith, rights-Wf l (end_of s) e w.2, rights-From l (end_of s) e, Wf-mono l e (end_of s))

pub overwrite-Wf :
    (n : ObSliceEntry) (l : List ObSliceEntry) → 0 < n.ssize.length → Wf 0 l → Wf 0 (overwrite n l)
unfolding overwrite
overwrite-Wf n l h w =
    Wf-append (lefts n.ssize.offset l) (n ∷ rights (end_of n) l) 0 n.ssize.offset (omega arith)
      (lefts-Wf l 0 n.ssize.offset w) (lefts-ends l n.ssize.offset)
      (omega arith, h, rights-Wf l 0 (end_of n) w)

pub carve-Wf : (o e : ℕ) (l : List ObSliceEntry) → o ≤ e → Wf 0 l → Wf 0 (carve o e l)
unfolding carve
carve-Wf o e l h w =
    Wf-append (lefts o l) (rights e l) 0 o (omega arith) (lefts-Wf l 0 o w) (lefts-ends l o)
      (Wf-mono (rights e l) o e h (rights-Wf l 0 e w))
