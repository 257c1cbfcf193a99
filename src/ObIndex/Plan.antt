-- ===== src/ObIndex/Plan.antt =====
-- What the collecting steps of add_slice and delete_slices must find for a range `o` to `e`: the
-- slices to take out, the pieces to put back, and how they stand in the list.
use faststore.Prelude.{
  ℕ, ◌-◌, ◌≤◌, ◌<◌, ◌≡◌, refl, List, [], ◌∷◌, ◌++◌, arith, ltb, if◌then◌else◌, inl, inr, le-or-lt,
  ap, subst, ◌∙◌,
}
use faststore.Types.{ObSliceEntry, end_of}
use faststore.ObIndex.Defs.{cut}
use faststore.ObIndex.Carve.{
  Wf, Wf-drop, Wf-take, Under, EndsBy, EndsBy-Under, EndsBy-mono, lefts, rights, lefts-append,
  rights-append, lefts-EndsBy, rights-EndsBy, lefts-From, covered, covered-append, covered-EndsBy,
  rights-Wf,
}
use faststore.ObIndex.Overlap.{hits, tails, rest, hits-rest, rights-tails-rest}

-- How a list lies to an offset `o`: no slice reaches over it, or the slice `p` does.
pub data Parted (o : ℕ) (l : List ObSliceEntry) : Type 0 where
  clear : (xs ys : List ObSliceEntry) → l ≡ xs ++ ys → EndsBy o xs → Wf o ys → Parted o l
  reached :
      (xs : List ObSliceEntry) (p : ObSliceEntry) (ys : List ObSliceEntry)
      → l ≡ xs ++ p ∷ ys
      → EndsBy p.ssize.offset xs
      → p.ssize.offset < o
      → o < end_of p
      → Wf (end_of p) ys
      → Parted o l

Parted-cons :
    {o : ℕ} {l : List ObSliceEntry} (s : ObSliceEntry)
    → end_of s ≤ o
    → Wf (end_of s) l
    → Parted o l
    → Parted o (s ∷ l)
Parted-cons s h w (clear xs ys e n v) = clear (s ∷ xs) ys (ap (◌∷◌ s) e) (h, n) v
Parted-cons s h w (reached xs p ys e n a b v) =
    let u = Wf-drop xs (p ∷ ys) (end_of s) (subst (Wf (end_of s)) e w) in
    reached (s ∷ xs) p ys (ap (◌∷◌ s) e) (u.0, n) a b v

pub parted : (l : List ObSliceEntry) (a o : ℕ) → Wf a l → Parted o l
parted [] a o w = clear [] [] refl tt tt
parted (s ∷ l) a o w = elim (le-or-lt o s.ssize.offset) [
  | inl h ↦ clear [] (s ∷ l) refl tt (h, w.1, w.2)
  | inr h ↦ elim (le-or-lt (end_of s) o) [
    | inl g ↦ Parted-cons s g w.2 (parted l (end_of s) o w.2)
    | inr g ↦ reached [] s l refl tt h g w.2
  ]
]

pub record Plan (o e : ℕ) (l D X : List ObSliceEntry) : Type 0 where
  pub start : ℕ
  pub start_le : start ≤ o
  pub before : List ObSliceEntry
  pub front : List ObSliceEntry
  pub back : List ObSliceEntry
  pub after : List ObSliceEntry
  pub whole : l ≡ before ++ (D ++ after)
  pub added : X ≡ front ++ back
  pub under : Under start before
  pub dels : Wf start D
  pub fronts : Wf start front
  pub front_ends : EndsBy o front
  pub before_ends : EndsBy o before
  pub backs : Wf e (back ++ after)
  pub lefts_eq : lefts o l ≡ before ++ front
  pub rights_eq : rights e l ≡ back ++ after

-- What is kept of a slice before the range and after it.
abbrev pub kept_before : ℕ → ObSliceEntry → ObSliceEntry
kept_before o p = cut p p.ssize.offset (o - p.ssize.offset)

abbrev pub kept_after : ℕ → ObSliceEntry → List ObSliceEntry
kept_after e p = if ltb e (end_of p) then cut p e (end_of p - e) ∷ [] else []

module _ (o e : ℕ) (lt : o < e) (l : List ObSliceEntry) (wf : Wf 0 l) where
  parts-Wf : (xs ys : List ObSliceEntry) → l ≡ xs ++ ys → Wf 0 xs × Wf 0 ys
  parts-Wf xs ys q = let w = subst (Wf 0) q wf in (Wf-take xs ys 0 w, Wf-drop xs ys 0 w)

  lefts-parts :
      (xs ys : List ObSliceEntry) → l ≡ xs ++ ys → EndsBy o xs → lefts o l ≡ xs ++ lefts o ys
  lefts-parts xs ys q n =
      rw (q, lefts-append o xs ys) (ap (λ t. t ++ lefts o ys) (lefts-EndsBy o xs n))

  rights-parts : (xs ys : List ObSliceEntry) → l ≡ xs ++ ys → EndsBy o xs → rights e l ≡ rights e ys
  rights-parts xs ys q n =
      rw (q, rights-append e xs ys)
        (ap (λ t. t ++ rights e ys)
          (rights-EndsBy xs 0 e (parts-Wf xs ys q).0 (EndsBy-mono xs o e (omega arith) n)))

  pub Plan-clear :
      (xs ys : List ObSliceEntry)
      → l ≡ xs ++ ys
      → EndsBy o xs
      → Wf o ys
      → Plan o e l (hits e ys) (tails e ys)
  Plan-clear xs ys q n w = record {
    start = o;
    start_le = omega arith;
    before = xs;
    front = [];
    back = tails e ys;
    after = rest e ys;
    whole = rw (hits-rest e ys) q;
    added = refl;
    under = EndsBy-Under xs 0 o (parts-Wf xs ys q).0 n;
    dels = Wf-take (hits e ys) (rest e ys) o (rw (hits-rest e ys) w);
    fronts = tt;
    front_ends = tt;
    before_ends = n;
    backs = rw (← rights-tails-rest e o ys w) (rights-Wf ys o e w);
    lefts_eq = lefts-parts xs ys q n ∙ ap (◌++◌ xs) (lefts-From ys o o (omega arith) w);
    rights_eq = rights-parts xs ys q n ∙ rights-tails-rest e o ys w;
  }

  left_of-reached :
      (p : ObSliceEntry) (ys : List ObSliceEntry)
      → p.ssize.offset < o
      → o < end_of p
      → Wf (end_of p) ys
      → lefts o (p ∷ ys) ≡ kept_before o p ∷ []
  unfolding lefts
  left_of-reached p ys a b w = ground (arith, lefts-From ys (end_of p) o (omega arith) w)

  right_of-reached :
      (p : ObSliceEntry) (ys : List ObSliceEntry)
      → p.ssize.offset < o
      → Wf (end_of p) ys
      → rights e (p ∷ ys) ≡ (kept_after e p ++ tails e ys) ++ rest e ys
  unfolding rights
  right_of-reached p ys a w = ground (arith, rights-tails-rest e (end_of p) ys w)

  pub Plan-reached :
      (xs : List ObSliceEntry) (p : ObSliceEntry) (ys : List ObSliceEntry)
      → l ≡ xs ++ p ∷ ys
      → EndsBy p.ssize.offset xs
      → p.ssize.offset < o
      → o < end_of p
      → Wf (end_of p) ys
      → Plan o e l (p ∷ hits e ys) (kept_before o p ∷ (kept_after e p ++ tails e ys))
  Plan-reached xs p ys q n a b w = record {
    start = p.ssize.offset;
    start_le = omega arith;
    before = xs;
    front = kept_before o p ∷ [];
    back = kept_after e p ++ tails e ys;
    after = rest e ys;
    whole = rw (hits-rest e ys) q;
    added = refl;
    under = EndsBy-Under xs 0 p.ssize.offset (parts-Wf xs (p ∷ ys) q).0 n;
    dels = (
      omega arith,
      omega arith,
      Wf-take (hits e ys) (rest e ys) (end_of p) (rw (hits-rest e ys) w),
    );
    fronts = ground arith;
    front_ends = ground arith;
    before_ends = n';
    backs = rw (← right_of-reached p ys a w) (rights-Wf (p ∷ ys) 0 e (parts-Wf xs (p ∷ ys) q).1);
    lefts_eq = lefts-parts xs (p ∷ ys) q n' ∙ ap (◌++◌ xs) (left_of-reached p ys a b w);
    rights_eq = rights-parts xs (p ∷ ys) q n' ∙ right_of-reached p ys a w;
  }
    where
      n' : EndsBy o xs
      n' = EndsBy-mono xs p.ssize.offset o (omega arith) n

  pub covered-clear :
      (xs ys : List ObSliceEntry) → l ≡ xs ++ ys → EndsBy o xs → covered o e l ≡ covered o e ys
  covered-clear xs ys q n = rw (q, covered-append xs ys o e, covered-EndsBy xs o e n) (omega arith)
