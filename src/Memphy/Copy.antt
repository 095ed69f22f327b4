-- ===== src/Memphy/Copy.antt =====
-- `__swap_cp_page` of src/mm.c copies one frame and nothing else.
use os_sim.Base.{
  ℕ, zero, suc, ◌+◌, ◌*◌, ◌≤◌, ◌<◌, ◌≡◌, refl, ◌∙◌, some, List, set, get_elem?, length, length-set,
  get_elem?-set_self, get_elem?-set_ne, get_elem?-total, ok, arith,
}
use os_sim.Memphy.{Memphy, pagesz, swap_loop, swap_cp_page}
use os_sim.Memphy.Access.{IsRandom, read_random, write_random}

-- `s'` is `s` with `n` bytes from index `d` on replaced by those of `src` from `a` on.
pub record Copied (src s s' : List ℕ) (a d n : ℕ) : Type 0 where
  pub size : length s' ≡ length s
  pub inside : (j : ℕ) → j < n → get_elem? s' (d + j) ≡ get_elem? src (a + j)
  pub below : (k : ℕ) → k < d → get_elem? s' k ≡ get_elem? s k
  pub above : (k : ℕ) → d + n ≤ k → get_elem? s' k ≡ get_elem? s k

Copied-zero : (src s : List ℕ) (a d : ℕ) → Copied src s s a d 0
Copied-zero src s a d = record {
  size = refl;
  inside = λ j h. elim h [ ];
  below = λ k h. refl;
  above = λ k h. refl;
}

Copied-suc :
    (src s s' : List ℕ) (a d n b : ℕ)
    → d < length s
    → get_elem? src a ≡ some b
    → Copied src (set s d b) s' (a + 1) (d + 1) n
    → Copied src s s' a d (suc n)
Copied-suc src s s' a d n b h e c = record {
  size = c.size ∙ length-set s d b;
  inside = inside;
  below = λ k lt. c.below k (omega arith) ∙ get_elem?-set_ne s d k b (omega arith);
  above = λ k le. c.above k (omega arith) ∙ get_elem?-set_ne s d k b (omega arith);
}
  where
    inside : (j : ℕ) → j < suc n → get_elem? s' (d + j) ≡ get_elem? src (a + j)
    inside zero lt = ground (arith, c.below d, get_elem?-set_self s d b h, e)
    inside (suc j) lt = ground (arith, c.inside j)

module _ (junk srcfpn dstfpn : ℕ) where
  swap_loop-Copied :
      (n i a d : ℕ) (src dst : Memphy)
      → IsRandom src
      → IsRandom dst
      → a ≡ srcfpn * pagesz + i
      → d ≡ dstfpn * pagesz + i
      → a + n ≤ length src.storage
      → d + n ≤ length dst.storage
      → (s' : List ℕ) × (swap_loop junk srcfpn dstfpn n i src dst
          ≡ ok (src, record dst { storage = s' }))
        × Copied src.storage dst.storage s' a d n
  unfolding swap_loop
  swap_loop-Copied zero i a d src dst u v ea ed hs hd =
      (dst.storage, refl, Copied-zero src.storage dst.storage a d)
  swap_loop-Copied (suc n) i a d src dst u v ea ed hs hd =
      let (b, e) = get_elem?-total src.storage a (omega arith) in
      let stored : List ℕ = set dst.storage d b in
      let dst' : Memphy = record dst { storage = stored } in
      let (s', run, copied) =
        swap_loop-Copied n (i + 1) (a + 1) (d + 1) src dst' u
          (record { idle = v.idle; random = v.random }) (omega arith) (omega arith) (omega arith)
          (omega (arith, length-set dst.storage d b)) in
      (
        s',
        rw (← ea, ← ed, read_random src a junk b u e, write_random dst d b v (omega arith)) run,
        Copied-suc src.storage dst.storage s' a d n b (omega arith) e copied,
      )

-- `__swap_cp_page` between two random-access devices that are not locked, with both frames inside
-- the storages, returns; the target frame then holds the 256 bytes of the source frame in order,
-- every other byte of the target device, its other fields and the source device are as before.
pub swap_cp_page_lem :
    (junk srcfpn dstfpn : ℕ) (src dst : Memphy)
    → IsRandom src
    → IsRandom dst
    → srcfpn * pagesz + pagesz ≤ length src.storage
    → dstfpn * pagesz + pagesz ≤ length dst.storage
    → (s' : List ℕ) × (swap_cp_page junk src srcfpn dst dstfpn
        ≡ ok (src, record dst { storage = s' }))
      × Copied src.storage dst.storage s' (srcfpn * pagesz) (dstfpn * pagesz) pagesz
unfolding swap_cp_page
swap_cp_page_lem junk srcfpn dstfpn src dst u v hs hd =
    swap_loop-Copied junk srcfpn dstfpn pagesz 0 (srcfpn * pagesz) (dstfpn * pagesz) src dst u v
      (omega arith) (omega arith) hs hd
