-- ===== src/MemoryPool/Stack.antt =====
-- The pool's calls when no other thread disturbs them, against a stack of free blocks
-- (include/oneplog/internal/memory_pool.hpp).
use oneplog.Prelude.{
  ℕ, zero, suc, ◌+◌, ◌%◌, ◌^◌, ◌≤◌, ◌≡◌, ◌≢◌, refl, ◌∙◌, ap, sym, subst, false, ◌==◌, List, [], ◌∷◌,
  ◌++◌, length, update, arith,
}
use oneplog.MemoryPool.Pool.{
  Pool, push_to_free_list, pop_from_free_list, allocate, deallocate, count_from, push_all,
  allocate_blocks, expand, flat_length, available_count, advance,
}
use oneplog.MemoryPool.Chain.{has, IsChain, IsChain-cons}

-- The free list holds these blocks, the last freed first, and no more than the pool has.
pub record IsPool (m : Pool) (free : List ℕ) : Type 0 where
  pub chain : IsChain m.next m.head free
  pub enough : length free ≤ flat_length m.blocks

pub push_to_free_list-eq :
    (b : ℕ) (m : Pool)
    → push_to_free_list b m ≡ record m { head = b; next = update m.next b m.head }
unfolding push_to_free_list advance
push_to_free_list-eq b m = ground arith

abbrev pub top : List ℕ → ℕ
top [] = 0
top (b ∷ bs) = b

abbrev pub below : List ℕ → List ℕ
below [] = []
below (b ∷ bs) = bs

allocate-null : (m : Pool) → m.head ≡ 0 → allocate m ≡ (0, m)
unfolding allocate pop_from_free_list advance
allocate-null m e = ground arith

allocate-top : (m : Pool) → m.head ≢ 0 → allocate m ≡ (m.head, record m { head = m.next m.head })
unfolding allocate pop_from_free_list advance
allocate-top m nz = ground arith

allocate-IsPool :
    (m : Pool) (free : List ℕ)
    → IsPool m free
    → ((allocate m).0 ≡ top free) × IsPool (allocate m).1 (below free)
allocate-IsPool m [] h = rw (allocate-null m h.chain) (refl, h)
allocate-IsPool m (b ∷ bs) h =
    let (e, nz, out, rest) = h.chain in
    let step = allocate-top m (ground arith) in
    rw step (
      e,
      record {
        chain = subst (λ q. IsChain m.next (m.next q) bs) (sym e) rest;
        enough = omega (arith, h.enough);
      },
    )

deallocate-IsPool :
    (m : Pool) (free : List ℕ) (b : ℕ)
    → IsPool m free
    → b ≢ 0
    → has b free ≡ false
    → length free + 1 ≤ flat_length m.blocks
    → IsPool (deallocate b m) (b ∷ free)
unfolding deallocate
deallocate-IsPool m free b h nz out room =
    let set : (b == 0) ≡ false = ground arith in
    rw (set, push_to_free_list-eq b m)
      (record { chain = IsChain-cons m.next m.head free b nz out h.chain; enough = omega arith })

-- New blocks: not null, not free, and all different.
abbrev pub AreFresh : List ℕ → List ℕ → Type 0
AreFresh [] free = Unit {0}
AreFresh (b ∷ bs) free = (b ≢ 0) × (has b free ≡ false) × AreFresh bs (b ∷ free)

abbrev pub onto : List ℕ → List ℕ → List ℕ
onto [] free = free
onto (b ∷ bs) free = onto bs (b ∷ free)

length-onto : (bs free : List ℕ) → length (onto bs free) ≡ length bs + length free
length-onto [] free = omega arith
length-onto (b ∷ bs) free = omega (arith, length-onto bs (b ∷ free))

flat_length-append :
    (xs ys : List (List ℕ)) → flat_length (xs ++ ys) ≡ flat_length xs + flat_length ys
flat_length-append [] ys = omega arith
flat_length-append (x ∷ xs) ys = omega (arith, flat_length-append xs ys)

-- What pushing blocks leaves.
record AllPushed (fresh free : List ℕ) (m m' : Pool) : Type 0 where
  chain : IsChain m'.next m'.head (onto fresh free)
  blocks : m'.blocks ≡ m.blocks
  total : m'.total_count ≡ m.total_count

push_all-AllPushed :
    (fresh free : List ℕ) (m : Pool)
    → AreFresh fresh free
    → IsChain m.next m.head free
    → AllPushed fresh free m (push_all fresh m)
unfolding push_all
push_all-AllPushed [] free m f c = record { chain = c; blocks = refl; total = refl }
push_all-AllPushed (b ∷ bs) free m (nz, out, f) c =
    let m1 = push_to_free_list b m in
    let e = push_to_free_list-eq b m in
    let c1 : IsChain m1.next m1.head (b ∷ free) =
      subst (λ (q : Pool). IsChain q.next q.head (b ∷ free)) (sym e)
        (IsChain-cons m.next m.head free b nz out c) in
    let ih = push_all-AllPushed bs (b ∷ free) m1 f c1 in
    record {
      chain = ih.chain;
      blocks = ih.blocks ∙ ap (λ (q : Pool). q.blocks) e;
      total = ih.total ∙ ap (λ (q : Pool). q.total_count) e;
    }

allocate_blocks-IsPool :
    (m : Pool) (free fresh : List ℕ)
    → IsPool m free
    → AreFresh fresh free
    → IsPool (allocate_blocks fresh m) (onto fresh free)
      × ((allocate_blocks fresh m).total_count ≡ (m.total_count + length fresh) % 2 ^ 64)
unfolding allocate_blocks
allocate_blocks-IsPool m free fresh h f =
    let done = push_all-AllPushed fresh free m f h.chain in
    (
      record {
        chain = done.chain;
        enough = omega (
          arith,
          length-onto fresh free,
          h.enough,
          ap flat_length done.blocks,
          flat_length-append (push_all fresh m).blocks (fresh ∷ []),
        );
      },
      ap (λ n. (n + length fresh) % 2 ^ 64) done.total,
    )

expand-IsPool :
    (m : Pool) (free fresh : List ℕ)
    → IsPool m free
    → AreFresh fresh free
    → IsPool (expand fresh m) (onto fresh free)
unfolding expand
expand-IsPool m free [] h f = h
expand-IsPool m free (b ∷ bs) h f = (allocate_blocks-IsPool m free (b ∷ bs) h f).0

count_from-length :
    (fuel : ℕ) (next : ℕ → ℕ) (p : ℕ) (bs : List ℕ)
    → length bs ≤ fuel
    → IsChain next p bs
    → count_from fuel next p ≡ length bs
unfolding count_from
count_from-length zero next p [] h c = refl
count_from-length (suc fuel) next p [] h c = ground arith
count_from-length zero next p (b ∷ bs) h c = absurd (omega arith)
count_from-length (suc fuel) next p (b ∷ bs) h (e, nz, out, rest) =
    let ih = count_from-length fuel next (next b) bs (omega arith) rest in ground (arith, ih)

-- A pool's calls, each undisturbed, do what a stack of free blocks does: `Allocate` takes the top
-- block, or gives null and leaves the stack empty; `Deallocate` of a block in use puts it on top,
-- if the pool has that many blocks; `Expand` puts new blocks on top, one after the other; and
-- `AvailableCount` ends and gives the height.
pub pool_refines :
    (m : Pool) (free : List ℕ) (b : ℕ) (fresh : List ℕ)
    → IsPool m free
    → b ≢ 0
    → has b free ≡ false
    → length free + 1 ≤ flat_length m.blocks
    → AreFresh fresh free
    → ((allocate m).0 ≡ top free)
      × IsPool (allocate m).1 (below free)
      × IsPool (deallocate b m) (b ∷ free)
      × IsPool (expand fresh m) (onto fresh free)
      × (available_count m ≡ length free)
unfolding available_count
pool_refines m free b fresh h nz out room f =
    let taken = allocate-IsPool m free h in
    (
      taken.0,
      taken.1,
      deallocate-IsPool m free b h nz out room,
      expand-IsPool m free fresh h f,
      count_from-length (flat_length m.blocks) m.next m.head free h.enough h.chain,
    )
