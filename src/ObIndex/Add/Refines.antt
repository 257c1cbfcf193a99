-- ===== src/ObIndex/Add/Refines.antt =====
-- add_slice as a whole: it overwrites the range of the new slice, or fails and changes nothing.
use faststore.Prelude.{
  ℕ, ◌+◌, ◌<◌, ◌≡◌, refl, List, [], ◌∷◌, ◌++◌, Option, none, some, arith, sym, ap, subst, ◌∙◌,
  last?, last?-none, ◌⊎◌, inl, inr, length, length-append, le-or-lt, append_assoc,
}
use faststore.Errno.{enomem}
use faststore.Types.{ObSliceEntry, end_of}
use faststore.ObIndex.Defs.{Slices, HtFlags, ObState}
use faststore.ObIndex.Carve.{Wf, covered, overwrite, lefts, rights}
use faststore.ObIndex.Plan.{Parted, clear, reached, parted}
use faststore.ObIndex.Memory.{Holds, Lasts}
use faststore.ObIndex.Search.{search-clear, search-reached}
use faststore.ObIndex.Apply.{chain_of, chain-carve, chain-overwrite, chain-do_add}
use faststore.ObIndex.Add.{
  Collected, AddResult, collect, apply_collected, finish_add, add_at, add_slice,
}
use faststore.ObIndex.Add.Enough.{Runs-collect}
use faststore.ObIndex.Add.Found.{Found, collect-clear, collect-reached}

module _ (S : Slices) (ht : HtFlags) where
  -- The container holds the old slices overwritten by the new one, and `inc_alloc` is the number of
  -- bytes of the new slice that were not covered.
  pub record Added (ob : ObState S) (n : ObSliceEntry) (r : AddResult S) : Type 0 where
    pub chain : chain_of S ht r.state ≡ overwrite n (chain_of S ht ob)
    pub counts : r.inc_alloc + covered n.ssize.offset (end_of n) (chain_of S ht ob) ≡ n.ssize.length

  -- ENOMEM, with the state as it was, which takes that few allocations succeed.
  pub record OutOfMemory (ob : ObState S) (mem : ℕ) (r : AddResult S) : Type 0 where
    pub short : mem < length (chain_of S ht ob) + 7
    pub code : r.result ≡ enomem
    pub state : r.state ≡ ob

  module _ (ob : ObState S) (n : ObSliceEntry) (pos : 0 < n.ssize.length)
      (wf : Wf 0 (chain_of S ht ob)) where
    apply-chain :
        (c : Collected)
        → Found n (chain_of S ht ob) c
        → chain_of S ht (apply_collected S ht ob n c).1 ≡ overwrite n (chain_of S ht ob)
    unfolding apply_collected
    apply-chain c f =
        chain-overwrite S ht _ n (chain_of S ht ob) pos wf
          (chain-carve S ht n.ssize.offset (end_of n) (omega arith) ob f.plan)

    finish-Added :
        (mem : ℕ) (r : Option (Collected × ℕ))
        → Holds (Found n (chain_of S ht ob)) r
        → (r ≡ none → mem < length (chain_of S ht ob) + 7)
        → OutOfMemory ob mem (finish_add S ht ob n mem r) ⊎ Added ob n (finish_add S ht ob n mem r)
    finish-Added mem none h e = inl (record { short = e refl; code = refl; state = refl })
    finish-Added mem (some (c, k)) h e = inr (record { chain = apply-chain c h; counts = h.counts })

    -- A node is found in the chain, so the loop is no longer than the chain.
    collect-short :
        (mem : ℕ) (xs ys : List ObSliceEntry) (pv : Option ObSliceEntry)
        → chain_of S ht ob ≡ xs ++ ys
        → collect n pv ys mem ≡ none
        → mem < length (chain_of S ht ob) + 7
    collect-short mem xs ys pv q e = elim (le-or-lt (5 + (length ys + 2)) mem) [
      | inl h ↦ absurd (subst (Lasts (5 + (length ys + 2)) mem) e ((Runs-collect n pv ys).at mem h))
      | inr h ↦ omega (arith, ap length q, length-append xs ys)
    ]

    add_at-Added :
        (mem : ℕ) (xs ys : List ObSliceEntry) (pv : Option ObSliceEntry)
        → chain_of S ht ob ≡ xs ++ ys
        → Holds (Found n (chain_of S ht ob)) (collect n pv ys mem)
        → (pv ≡ none → xs ≡ [])
        → OutOfMemory ob mem (add_at S ht ob n mem pv ys) ⊎ Added ob n (add_at S ht ob n mem pv ys)
    unfolding add_at overwrite covered lefts rights
    add_at-Added mem xs [] none q h e =
        let z : chain_of S ht ob ≡ [] = q ∙ ap (λ t. t ++ []) (e refl) in
        inr (record {
          chain = rw z (chain-do_add S ht ob n [] [] z tt tt);
          counts = rw z (omega arith);
        })
    add_at-Added mem xs [] (some p) q h e =
        finish-Added mem (collect n (some p) [] mem) h (collect-short mem xs [] (some p) q)
    add_at-Added mem xs (y ∷ ys) pv q h e =
        finish-Added mem (collect n pv (y ∷ ys) mem) h (collect-short mem xs (y ∷ ys) pv q)

    Parted-Added :
        (mem : ℕ)
        → Parted n.ssize.offset (chain_of S ht ob)
        → OutOfMemory ob mem (add_slice S ht ob n mem) ⊎ Added ob n (add_slice S ht ob n mem)
    unfolding add_slice
    Parted-Added mem (clear xs ys q e w) =
        let r = search-clear S ob.slices wf n.ssize.offset xs ys q e w in
        rw (r.0, r.1)
          (add_at-Added mem xs ys (last? xs) q
            (collect-clear n pos (chain_of S ht ob) wf xs ys mem q e w) (last?-none xs))
    Parted-Added mem (reached xs p ys q e a b w) =
        let r = search-reached S ob.slices wf n.ssize.offset xs p ys q e a b w in
        rw (r.0, r.1)
          (add_at-Added mem (xs ++ p ∷ []) ys (some p) (q ∙ sym (append_assoc xs (p ∷ []) ys))
            (collect-reached n pos (chain_of S ht ob) wf xs p ys mem q e a b w) (λ c. cc))

    pub add_slice-Added :
        (mem : ℕ)
        → OutOfMemory ob mem (add_slice S ht ob n mem) ⊎ Added ob n (add_slice S ht ob n mem)
    add_slice-Added mem = Parted-Added mem (parted (chain_of S ht ob) 0 n.ssize.offset wf)
