-- ===== src/ObIndex/Get/Window.antt =====
-- What get_slices is for, on a plain list: each slice cut down to the range, if it meets it.
use faststore.Prelude.{
  ℕ, ◌-◌, ◌≤◌, ◌<◌, ◌≡◌, refl, List, [], ◌∷◌, ◌++◌, Bool, true, false, Option, none, some, arith,
  ltb, leb, ◌&&◌, if◌then◌else◌, min, max, append_assoc, sym, ap, ◌∙◌,
}
use faststore.Types.{ObSliceEntry, end_of}
use faststore.ObIndex.Defs.{dup_fields}
use faststore.ObIndex.Carve.{Wf, Wf-append, EndsBy, total, total-append, covered}
use faststore.ObIndex.Bytes.{Place, byte_at, byte_at-append, holds, place_in}

pub piece : ℕ → ℕ → ObSliceEntry → List ObSliceEntry
piece o e s =
    if leb (end_of s) o
    then []
    else if leb e s.ssize.offset
    then []
    else if ltb s.ssize.offset o
    then dup_fields s o (min (end_of s) e - o) ∷ []
    else if ltb e (end_of s)
    then dup_fields s s.ssize.offset (e - s.ssize.offset) ∷ []
    else s ∷ []

unfoldable pub window : ℕ → ℕ → List ObSliceEntry → List ObSliceEntry
unfolding piece
window o e [] = []
window o e (s ∷ l) = piece o e s ++ window o e l

pub window-cons :
    (o e : ℕ) (s : ObSliceEntry) (l : List ObSliceEntry)
    → window o e (s ∷ l) ≡ piece o e s ++ window o e l
unfolding window
window-cons o e s l = refl

pub window-append :
    (o e : ℕ) (xs ys : List ObSliceEntry) → window o e (xs ++ ys) ≡ window o e xs ++ window o e ys
unfolding window
window-append o e [] ys = refl
window-append o e (s ∷ xs) ys =
    ap (◌++◌ (piece o e s)) (window-append o e xs ys) ∙ sym (append_assoc (piece o e s) _ _)

pub window-EndsBy : (o e : ℕ) (l : List ObSliceEntry) → EndsBy o l → window o e l ≡ []
unfolding window
window-EndsBy o e [] h = refl
window-EndsBy o e (s ∷ l) h = ground (arith, window-EndsBy o e l h.1)

pub window-From : (l : List ObSliceEntry) (o e a : ℕ) → e ≤ a → Wf a l → window o e l ≡ []
unfolding window
window-From [] o e a h w = refl
window-From (s ∷ l) o e a h w = ground (arith, window-From l o e (end_of s) (omega arith) w.2)

byte_at-piece :
    (x o e : ℕ) (s : ObSliceEntry)
    → byte_at x (piece o e s)
      ≡ (if leb o x && ltb x e then (if holds s x then some (place_in s x) else none) else none)
unfolding byte_at piece
byte_at-piece x o e s = ground arith

-- A byte of the range lies in the pieces where it lies in the slices, and they hold no other byte.
pub byte_at-window :
    (x o e : ℕ) (l : List ObSliceEntry)
    → byte_at x (window o e l) ≡ (if leb o x && ltb x e then byte_at x l else none)
unfolding byte_at window
byte_at-window x o e [] = ground arith
byte_at-window x o e (s ∷ l) =
    byte_at-append x (piece o e s) (window o e l)
    ∙ join (leb o x && ltb x e) (holds s x) _ _ (place_in s x) (byte_at x l) (byte_at-piece x o e s)
        (byte_at-window x o e l)
  where
    join :
        (b c : Bool) (p q : Option Place) (t : Place) (u : Option Place)
        → p ≡ (if b then (if c then some t else none) else none)
        → q ≡ (if b then u else none)
        → elim p [ none ↦ q | some v ↦ some v ] ≡ (if b then (if c then some t else u) else none)
    join true true p q t u h g = rw h
    join true false p q t u h g = rw (h, g)
    join false c p q t u h g = rw (h, g)

pub window-ends : (o e : ℕ) (l : List ObSliceEntry) → o ≤ e → EndsBy e (window o e l)
unfolding window
window-ends o e [] h = tt
window-ends o e (s ∷ l) h = ground (arith, window-ends o e l h)

piece-Wf :
    (s : ObSliceEntry) (o e a : ℕ)
    → o < e
    → a ≤ s.ssize.offset
    → 0 < s.ssize.length
    → Wf (max a o) (piece o e s) × EndsBy (max (end_of s) o) (piece o e s)
unfolding piece
piece-Wf s o e a h g p = ground arith

-- The pieces are in order, and begin in the range.
pub window-Wf : (l : List ObSliceEntry) (o e a : ℕ) → o < e → Wf a l → Wf (max a o) (window o e l)
unfolding window
window-Wf [] o e a h w = tt
window-Wf (s ∷ l) o e a h w =
    let f = piece-Wf s o e a h w.0 w.1 in
    Wf-append (piece o e s) (window o e l) (max a o) (max (end_of s) o) (omega arith) f.0 f.1
      (window-Wf l o e (end_of s) h w.2)

total-piece :
    (s : ObSliceEntry) (o e : ℕ)
    → o ≤ e
    → 0 < s.ssize.length
    → total (piece o e s) ≡ min (end_of s) e - max s.ssize.offset o
unfolding total piece
total-piece s o e h p = ground arith

pub total-window :
    (l : List ObSliceEntry) (a o e : ℕ) → o ≤ e → Wf a l → total (window o e l) ≡ covered o e l
unfolding window covered total
total-window [] a o e h w = refl
total-window (s ∷ l) a o e h w = omega (
  arith,
  total-append (piece o e s) (window o e l),
  total-piece s o e h w.1,
  total-window l (end_of s) o e h w.2,
)

-- The piece of a slice that begins in the range, which is all of it or its first part.
pub piece-whole :
    (o e : ℕ) (s : ObSliceEntry)
    → o ≤ s.ssize.offset
    → 0 < s.ssize.length
    → end_of s ≤ e
    → piece o e s ≡ s ∷ []
unfolding piece
piece-whole o e s h p g = ground arith

pub piece-first :
    (o e : ℕ) (s : ObSliceEntry)
    → o ≤ s.ssize.offset
    → s.ssize.offset < e
    → e < end_of s
    → piece o e s ≡ dup_fields s s.ssize.offset (e - s.ssize.offset) ∷ []
unfolding piece
piece-first o e s h p g = ground arith

-- The piece of a slice that reaches into the range from before it.
pub piece-last :
    (o e : ℕ) (s : ObSliceEntry)
    → o < e
    → s.ssize.offset < o
    → o < end_of s
    → piece o e s ≡ dup_fields s o (min (end_of s) e - o) ∷ []
unfolding piece
piece-last o e s p h g = ground arith
