-- ===== src/ObIndex/Overlap.antt =====
-- The slices that a range overlaps, of those that begin in it or later: which are taken out, the
-- rest that is kept of the last one, and those beyond.
use faststore.Prelude.{ℕ, ◌-◌, ◌≤◌, ◌≡◌, refl, List, [], ◌∷◌, ◌++◌, arith, ltb, leb, if◌then◌else◌}
use faststore.Types.{ObSliceEntry, end_of}
use faststore.ObIndex.Defs.{cut}
use faststore.ObIndex.Carve.{Wf, rights, rights-From}

unfoldable pub hits : ℕ → List ObSliceEntry → List ObSliceEntry
hits e [] = []
hits e (s ∷ l) =
    if leb e s.ssize.offset then [] else s ∷ (if ltb e (end_of s) then [] else hits e l)

unfoldable pub tails : ℕ → List ObSliceEntry → List ObSliceEntry
tails e [] = []
tails e (s ∷ l) =
    if leb e s.ssize.offset
    then []
    else if ltb e (end_of s)
    then cut s e (end_of s - e) ∷ []
    else tails e l

unfoldable pub rest : ℕ → List ObSliceEntry → List ObSliceEntry
rest e [] = []
rest e (s ∷ l) = if leb e s.ssize.offset then s ∷ l else if ltb e (end_of s) then l else rest e l

pub hits-rest : (e : ℕ) (l : List ObSliceEntry) → hits e l ++ rest e l ≡ l
unfolding hits rest
hits-rest e [] = refl
hits-rest e (s ∷ l) = ground (arith, hits-rest e l)

pub rights-tails-rest :
    (e a : ℕ) (l : List ObSliceEntry) → Wf a l → rights e l ≡ tails e l ++ rest e l
unfolding rights tails rest
rights-tails-rest e a [] w = refl
rights-tails-rest e a (s ∷ l) w =
    ground (arith, rights-tails-rest e (end_of s) l w.2, rights-From l (end_of s) e)

-- Nothing is overlapped where the first slice begins at the end of the range or later.
pub hits-From : (e a : ℕ) (l : List ObSliceEntry) → e ≤ a → Wf a l → hits e l ≡ []
unfolding hits
hits-From e a [] h w = refl
hits-From e a (s ∷ l) h w = ground arith

pub tails-From : (e a : ℕ) (l : List ObSliceEntry) → e ≤ a → Wf a l → tails e l ≡ []
unfolding tails
tails-From e a [] h w = refl
tails-From e a (s ∷ l) h w = ground arith
