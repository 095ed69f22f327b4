-- ===== src/Memphy/Tests.antt =====
-- The devices of src/mm-memphy.c at concrete inputs.
use os_sim.Base.{
  ℕ, ◌+◌, ◌*◌, ◌/◌, ◌≤◌, ◌<◌, ◌≡◌, ◌≢◌, ◌⊎◌, refl, false, List, [], ◌∷◌, length, replicate,
  length-replicate, All, ok, fault, arith, minus_one,
}
use os_sim.Memphy.{Memphy, pagesz, read, write, get_freefp, put_freefp, init_memphy, swap_cp_page}
use os_sim.Memphy.Access.{IsRandom, read-write}
use os_sim.Memphy.Copy.{Copied, swap_cp_page_lem}
use os_sim.Memphy.Frames.{IsFormatted, get_freefp_lem}

-- Two frames of one byte repeated.
abbrev device : ℕ → Memphy
device b = record {
  locked = false;
  storage = replicate 512 b;
  maxsz = 512;
  rdmflg = 1;
  cursor = 0;
  free_fp_list = 0 ∷ 1 ∷ [];
}

device-IsRandom : (b : ℕ) → IsRandom (device b)
device-IsRandom b = record { idle = refl; random = omega arith }

device-IsFormatted : (b : ℕ) → IsFormatted (device b)
device-IsFormatted b = record {
  idle = refl;
  frames = (omega arith, (omega arith, tt), (omega arith, tt, tt));
}

read-device : read (device 7) 300 0 ≡ ok (0, 7, device 7)
unfolding read
read-device = refl

init-listed :
    init_memphy [] [] (device 0) 1024 0
    ≡ ok (
      0,
      record {
        locked = false;
        storage = [];
        maxsz = 1024;
        rdmflg = 0;
        cursor = 0;
        free_fp_list = 0 ∷ 1 ∷ 2 ∷ 3 ∷ [];
      },
    )
unfolding init_memphy
init-listed = refl

read-write_example :
    ((mp' : Memphy) × (3 < length (device 7).storage)
      × (write (device 7) 3 9 ≡ ok (0, mp'))
      × IsRandom mp'
      × (read mp' 3 1 ≡ ok (0, 9, mp'))
      × ((c : ℕ)
          → ◌≢◌ {A = ℕ} 3 4
          → read (device 7) 4 1 ≡ ok (0, c, device 7)
          → read mp' 4 1 ≡ ok (0, c, mp')))
    ⊎ ((length (device 7).storage ≤ 3)
        × (write (device 7) 3 9 ≡ fault)
        × (read (device 7) 3 1 ≡ fault))
read-write_example = read-write (device 7) 3 4 9 1 (device-IsRandom 7)

room : (b f : ℕ) → f ≤ 1 → f * pagesz + pagesz ≤ length (replicate 512 b)
room b f h = omega (arith, length-replicate 512 b)

swap_cp_page_lem_example :
    (s' : List ℕ) × (swap_cp_page 0 (device 7) 1 (device 3) 0
      ≡ ok (device 7, record (device 3) { storage = s' }))
    × Copied (replicate 512 7) (replicate 512 3) s' (1 * pagesz) (0 * pagesz) pagesz
swap_cp_page_lem_example =
    swap_cp_page_lem 0 1 0 (device 7) (device 3) (device-IsRandom 7) (device-IsRandom 3)
      (room 7 1 (omega arith)) (room 3 0 (omega arith))

get_freefp_lem_example :
    (((device 7).free_fp_list ≡ []) × (get_freefp (device 7) 9 ≡ ok (minus_one, 9, device 7)))
    ⊎ ((f : ℕ) × (mp' : Memphy) × (get_freefp (device 7) 9 ≡ ok (0, f, mp'))
        × (f < 512 / pagesz)
        × All (λ g. f ≢ g) mp'.free_fp_list
        × IsFormatted mp'
        × (put_freefp mp' f ≡ ok (0, device 7)))
get_freefp_lem_example = get_freefp_lem (device 7) 9 (device-IsFormatted 7)
