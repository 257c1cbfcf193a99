-- ===== src/ObIndex/Delete/Refines.antt =====
-- delete_slices as a whole: it carves the range out of the block, finds nothing there, or fails and
-- changes nothing.
use faststore.Prelude.{
  ℕ, ◌+◌, ◌<◌, ◌≡◌, refl, List, [], ◌∷◌, ◌++◌, Option, none, some, arith, sym, ap, subst, ◌∙◌,
  last?, last?-none, ◌⊎◌, inl, inr, length, length-append, le-or-lt, append_assoc,
}
use faststore.Errno.{enoent, enomem}
use faststore.Types.{ObSliceEntry, FsSliceSize}
use faststore.ObIndex.Defs.{Slices, HtFlags, ObState}
use faststore.ObIndex.Carve.{Wf, covered, carve}
use faststore.ObIndex.Plan.{Plan, Parted, clear, reached, parted}
use faststore.ObIndex.Memory.{Holds, Lasts}
use faststore.ObIndex.Search.{search-clear, search-reached}
use faststore.ObIndex.Apply.{chain_of, chain-carve}
use faststore.ObIndex.Delete.{
  Removed, DeleteResult, slice_end, collect, finish_delete, delete_at, delete_slices,
}
use faststore.ObIndex.Delete.Found.{Found, collect-clear, collect-reached, Runs-collect}

module _ (S : Slices) (ht : HtFlags) where
  -- How many bytes of the range the slices of the block cover.
  abbrev pub covered_in : ObState S → FsSliceSize → ℕ
  covered_in ob r = covered r.offset (slice_end r) (chain_of S ht ob)

  -- The three ways in which delete_slices ends: ENOMEM and ENOENT with the state as it was, and 0.
  pub record OutOfMemory (ob : ObState S) (mem : ℕ) (d : DeleteResult S) : Type 0 where
    pub short : mem < length (chain_of S ht ob) + 7
    pub code : d.result ≡ enomem
    pub state : d.state ≡ ob

  pub record Missing (ob : ObState S) (r : FsSliceSize) (d : DeleteResult S) : Type 0 where
    pub code : d.result ≡ enoent
    pub state : d.state ≡ ob
    pub counts : d.dec_alloc ≡ 0
    pub uncovered : covered_in ob r ≡ 0

  pub record Deleted (ob : ObState S) (r : FsSliceSize) (d : DeleteResult S) : Type 0 where
    pub code : d.result ≡ 0
    pub chain : chain_of S ht d.state ≡ carve r.offset (slice_end r) (chain_of S ht ob)
    pub counts : d.dec_alloc ≡ covered_in ob r
    pub some_covered : 0 < covered_in ob r

  abbrev pub Outcome : ObState S → FsSliceSize → ℕ → DeleteResult S → Type 0
  Outcome ob r mem d = OutOfMemory ob mem d ⊎ (Missing ob r d ⊎ Deleted ob r d)

  module _ (ob : ObState S) (r : FsSliceSize) (pos : 0 < r.length)
      (wf : Wf 0 (chain_of S ht ob)) where
    apply-Outcome :
        (mem k : ℕ) (c : Removed) (l : List ObSliceEntry)
        → c.del.slices ≡ l
        → Found r (chain_of S ht ob) c
        → Outcome ob r mem (finish_delete S ht ob mem (some (c, k)))
    apply-Outcome mem k c [] e f = inr (
        inl (
          rw (e, finish_delete)
            (record {
              code = refl;
              state = refl;
              counts = f.nothing e;
              uncovered = sym f.counts ∙ f.nothing e;
            })))
    apply-Outcome mem k c (s ∷ l) e f = inr (
        inr (
          rw (e, finish_delete)
            (record {
              code = refl;
              chain = chain-carve S ht r.offset (slice_end r) (omega arith) ob (
                  subst (λ t. Plan r.offset (slice_end r) (chain_of S ht ob) t c.add.slices) e
                    f.plan);
              counts = f.counts;
              some_covered = subst (λ t. 0 < t) f.counts (f.something (λ g. ground arith));
            })))

    finish-Outcome :
        (mem : ℕ) (c : Option (Removed × ℕ))
        → Holds (Found r (chain_of S ht ob)) c
        → (c ≡ none → mem < length (chain_of S ht ob) + 7)
        → Outcome ob r mem (finish_delete S ht ob mem c)
    finish-Outcome mem none h e = inl (record { short = e refl; code = refl; state = refl })
    finish-Outcome mem (some (c, k)) h e = apply-Outcome mem k c c.del.slices refl h

    collect-short :
        (mem : ℕ) (xs ys : List ObSliceEntry) (pv : Option ObSliceEntry)
        → chain_of S ht ob ≡ xs ++ ys
        → collect r pv ys mem ≡ none
        → mem < length (chain_of S ht ob) + 7
    collect-short mem xs ys pv q e = elim (le-or-lt (5 + (length ys + 2)) mem) [
      | inl h ↦ absurd (subst (Lasts (5 + (length ys + 2)) mem) e ((Runs-collect r pv ys).at mem h))
      | inr h ↦ omega (arith, ap length q, length-append xs ys)
    ]

    delete_at-Outcome :
        (mem : ℕ) (xs ys : List ObSliceEntry) (pv : Option ObSliceEntry)
        → chain_of S ht ob ≡ xs ++ ys
        → Holds (Found r (chain_of S ht ob)) (collect r pv ys mem)
        → (pv ≡ none → xs ≡ [])
        → Outcome ob r mem (delete_at S ht ob r mem pv ys)
    unfolding delete_at covered
    delete_at-Outcome mem xs [] none q h e =
        let z : chain_of S ht ob ≡ [] = q ∙ ap (λ t. t ++ []) (e refl) in
        inr (inl (record { code = refl; state = refl; counts = refl; uncovered = rw z }))
    delete_at-Outcome mem xs [] (some p) q h e =
        finish-Outcome mem (collect r (some p) [] mem) h (collect-short mem xs [] (some p) q)
    delete_at-Outcome mem xs (y ∷ ys) pv q h e =
        finish-Outcome mem (collect r pv (y ∷ ys) mem) h (collect-short mem xs (y ∷ ys) pv q)

    Parted-Outcome :
        (mem : ℕ)
        → Parted r.offset (chain_of S ht ob)
        → Outcome ob r mem (delete_slices S ht ob r mem)
    unfolding delete_slices
    Parted-Outcome mem (clear xs ys q e w) =
        let f = search-clear S ob.slices wf r.offset xs ys q e w in
        rw (f.0, f.1)
          (delete_at-Outcome mem xs ys (last? xs) q
            (collect-clear r pos (chain_of S ht ob) wf xs ys mem q e w) (last?-none xs))
    Parted-Outcome mem (reached xs p ys q e a b w) =
        let f = search-reached S ob.slices wf r.offset xs p ys q e a b w in
        rw (f.0, f.1)
          (delete_at-Outcome mem (xs ++ p ∷ []) ys (some p) (q ∙ sym (append_assoc xs (p ∷ []) ys))
            (collect-reached r pos (chain_of S ht ob) wf xs p ys mem q e a b w) (λ c. cc))

    pub delete_slices-Outcome : (mem : ℕ) → Outcome ob r mem (delete_slices S ht ob r mem)
    delete_slices-Outcome mem = Parted-Outcome mem (parted (chain_of S ht ob) 0 r.offset wf)
