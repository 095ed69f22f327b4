-- ===== src/Memphy/Frames.antt =====
-- The list of free frames of a device of src/mm-memphy.c.
use os_sim.Base.{
  ℕ, zero, suc, ◌+◌, ◌-◌, ◌*◌, ◌/◌, ◌^◌, ◌≤◌, ◌<◌, ◌≡◌, ◌≢◌, ◌⊎◌, ◌↔◌, inl, inr, refl, ap, subst,
  ◌==◌, false, List, [], ◌∷◌, length, All, ok, arith, minus_one, ltb, if◌then◌else◌,
}
use os_sim.Memphy.{Memphy, pagesz, frames_from, get_freefp, put_freefp, init_memphy}

-- No frame is listed twice, and each lies in the device.
abbrev pub FramesBelow : ℕ → List ℕ → Type 0
FramesBelow n [] = Unit
FramesBelow n (f ∷ fs) = (f < n) × All (λ g. f ≢ g) fs × FramesBelow n fs

pub record IsFormatted (mp : Memphy) : Type 0 where
  pub idle : mp.locked ≡ false
  pub frames : FramesBelow (mp.maxsz / pagesz) mp.free_fp_list

length-frames_from : (n i : ℕ) → length (frames_from n i) ≡ n
unfolding frames_from
length-frames_from zero i = refl
length-frames_from (suc n) i = ap suc (length-frames_from n (i + 1))

frames_from-fresh : (n i f : ℕ) → f < i → All (λ g. f ≢ g) (frames_from n i)
unfolding frames_from
frames_from-fresh zero i f h = tt
frames_from-fresh (suc n) i f h = (omega arith, frames_from-fresh n (i + 1) f (omega arith))

frames_from-FramesBelow : (n i m : ℕ) → i + n ≤ m → FramesBelow m (frames_from n i)
unfolding frames_from
frames_from-FramesBelow zero i m h = tt
frames_from-FramesBelow (suc n) i m h = (
  omega arith,
  frames_from-fresh n (i + 1) i (omega arith),
  frames_from-FramesBelow n (i + 1) m (omega arith),
)

-- `init_memphy` with at least two frames makes a device that is not locked and lists every frame of
-- the device once; the mode is random access exactly when the flag is not 0.
pub init_memphy_lem :
    (wild storage : List ℕ) (mp : Memphy) (max_size randomflg : ℕ)
    → 2 * pagesz ≤ max_size
    → max_size < 2 ^ 31
    → (mp' : Memphy) × (init_memphy wild storage mp max_size randomflg ≡ ok (0, mp'))
      × IsFormatted mp'
      × (length mp'.free_fp_list ≡ max_size / pagesz)
      × (mp'.maxsz ≡ max_size)
      × (mp'.storage ≡ storage)
      × ((mp'.rdmflg ≡ 0) ↔ (randomflg ≡ 0))
unfolding init_memphy
init_memphy_lem wild storage mp max_size randomflg h g =
    let n = max_size / pagesz in
    let listed : List ℕ = frames_from (n - 1) 1 in
    (
      record {
        locked = false;
        storage = storage;
        maxsz = max_size;
        rdmflg = if randomflg == 0 then 0 else 1;
        cursor = if randomflg == 0 then 0 else mp.cursor;
        free_fp_list = 0 ∷ listed;
      },
      ground arith,
      record {
        idle = refl;
        frames = (
          omega arith,
          frames_from-fresh (n - 1) 1 0 (omega arith),
          frames_from-FramesBelow (n - 1) 1 n (omega arith),
        );
      },
      omega (arith, length-frames_from (n - 1) 1),
      refl,
      refl,
      ground arith,
    )

-- With a smaller device the list of free frames is what uninitialised memory makes it: below one
-- frame `MEMPHY_format` fails and the list stays that of the memory at hand, and with just one
-- frame the frame 0 is followed by what its unset link leads to.
pub init_memphy_small :
    (wild storage : List ℕ) (mp : Memphy) (max_size randomflg : ℕ)
    → max_size < 2 * pagesz
    → (mp' : Memphy) × (init_memphy wild storage mp max_size randomflg ≡ ok (0, mp'))
      × (mp'.free_fp_list ≡ (if ltb max_size pagesz then mp.free_fp_list else 0 ∷ wild))
unfolding init_memphy
init_memphy_small wild storage mp max_size randomflg h = (
  record {
    locked = false;
    storage = storage;
    maxsz = max_size;
    rdmflg = if randomflg == 0 then 0 else 1;
    cursor = if randomflg == 0 then 0 else mp.cursor;
    free_fp_list = if ltb max_size pagesz then mp.free_fp_list else 0 ∷ wild;
  },
  ground arith,
  refl,
)

-- `MEMPHY_get_freefp` on a formatted device takes a frame that lies in the device and is free no
-- longer, or returns -1 if none is free and changes nothing; `MEMPHY_put_freefp` of the frame taken
-- gives back the device as it was.
pub get_freefp_lem :
    (mp : Memphy) (fpn : ℕ)
    → IsFormatted mp
    → ((mp.free_fp_list ≡ []) × (get_freefp mp fpn ≡ ok (minus_one, fpn, mp)))
      ⊎ ((f : ℕ) × (mp' : Memphy) × (get_freefp mp fpn ≡ ok (0, f, mp'))
          × (f < mp.maxsz / pagesz)
          × All (λ g. f ≢ g) mp'.free_fp_list
          × IsFormatted mp'
          × (put_freefp mp' f ≡ ok (0, mp)))
unfolding get_freefp put_freefp
get_freefp_lem mp fpn v = taken mp.free_fp_list refl
  where
    taken :
        (fs : List ℕ)
        → mp.free_fp_list ≡ fs
        → ((mp.free_fp_list ≡ []) × (get_freefp mp fpn ≡ ok (minus_one, fpn, mp)))
          ⊎ ((f : ℕ) × (mp' : Memphy) × (get_freefp mp fpn ≡ ok (0, f, mp'))
              × (f < mp.maxsz / pagesz)
              × All (λ g. f ≢ g) mp'.free_fp_list
              × IsFormatted mp'
              × (put_freefp mp' f ≡ ok (0, mp)))
    taken [] e = inl (e, ground arith)
    taken (f ∷ fs) e =
        let inv = subst (FramesBelow (mp.maxsz / pagesz)) e v.frames in
        inr (
          f,
          record mp { free_fp_list = fs },
          ground arith,
          inv.0,
          inv.1,
          record { idle = v.idle; frames = inv.2 },
          ground arith,
        )

-- `MEMPHY_put_freefp` of a frame of the device that is not free keeps the device formatted, and
-- the next `MEMPHY_get_freefp` takes that frame.
pub put_freefp_lem :
    (mp : Memphy) (f fpn : ℕ)
    → IsFormatted mp
    → f < mp.maxsz / pagesz
    → All (λ g. f ≢ g) mp.free_fp_list
    → (mp' : Memphy) × (put_freefp mp f ≡ ok (0, mp'))
      × IsFormatted mp'
      × (get_freefp mp' fpn ≡ ok (0, f, mp))
unfolding put_freefp get_freefp
put_freefp_lem mp f fpn v h fresh = (
  record mp { free_fp_list = f ∷ mp.free_fp_list },
  ground arith,
  record { idle = v.idle; frames = (h, fresh, v.frames) },
  ground arith,
)
