-- ===== src/Memphy.antt =====
-- src/mm-memphy.c: a physical memory device, RAM or swap. A byte is a number, an `int` its bit
-- pattern, the list of free frames a list of frame numbers, and the mutex a flag. A function
-- returns its `int`, what it leaves at the pointers it was given, and the new device. Callers never
-- pass a null device, so the tests for one are left out.
pub mod Access
pub mod Copy
pub mod Frames
mod Tests
use os_sim.Base.{
  ℕ, zero, suc, ◌+◌, ◌-◌, ◌*◌, ◌/◌, ◌%◌, ◌^◌, Bool, true, false, ◌&&◌, ◌||◌, not, Option, none,
  some, List, [], ◌∷◌, set, get_elem?, length, Outcome, ok, fault, blocked, no_fuel, ◌>>=◌, ltb,
  ◌==◌, if◌then◌else◌, is_negative, minus_one,
}

-- `struct memphy_struct`. `memphy_id` and `used_fp_list` are never read or written.
pub record Memphy : Type 0 where
  pub locked : Bool
  pub storage : List ℕ
  pub maxsz : ℕ
  pub rdmflg : ℕ
  pub cursor : ℕ
  pub free_fp_list : List ℕ

-- PAGING_PAGESZ
abbrev pub pagesz : ℕ
pagesz = 256

-- `pthread_mutex_lock` and `pthread_mutex_unlock`, called by one thread.
lock : Memphy → Outcome Memphy
lock mp = if mp.locked then blocked else ok (record mp { locked = true })

unlock : Memphy → Memphy
unlock mp = record mp { locked = false }

-- `mp->storage[addr]`
load : Memphy → ℕ → Outcome ℕ
load mp addr = elim (get_elem? mp.storage addr) [ none ↦ fault | some b ↦ ok b ]

store : Memphy → ℕ → ℕ → Outcome Memphy
store mp addr b =
    if ltb addr (length mp.storage)
    then ok (record mp { storage = set mp.storage addr b })
    else fault

-- The loop of `MEMPHY_mv_csr`, on fuel: it makes at most `maxsz` rounds.
csr_loop : ℕ → ℕ → ℕ → Memphy → Outcome Memphy
csr_loop zero numstep offset mp = no_fuel
csr_loop (suc fuel) numstep offset mp =
    let rest =
      csr_loop fuel (numstep + 1) offset (record mp { cursor = (mp.cursor + 1) % mp.maxsz }) in
    if not (is_negative offset) && (ltb numstep offset && ltb numstep mp.maxsz) then rest else ok mp

unfoldable pub mv_csr : Memphy → ℕ → Outcome (ℕ × Memphy)
unfolding lock unlock csr_loop
mv_csr mp offset = do
  mp ← lock mp
  mp ← csr_loop (mp.maxsz + 1) 0 offset (record mp { cursor = 0 })
  ok (0, unlock mp)

-- `value` is what the pointer holds before the call.
unfoldable pub seq_read : Memphy → ℕ → (value : ℕ) → Outcome (ℕ × ℕ × Memphy)
unfolding mv_csr load unlock
seq_read mp addr value =
    if mp.rdmflg == 0
    then ok (minus_one, value, unlock mp)
    else (do (_, mp) ← mv_csr mp addr; b ← load mp addr; ok (0, b, unlock mp))

unfoldable pub read : Memphy → ℕ → (value : ℕ) → Outcome (ℕ × ℕ × Memphy)
unfolding lock seq_read load unlock
read mp addr value = do
  mp ← lock mp
  if mp.rdmflg == 0 then seq_read mp addr value else (do b ← load mp addr; ok (0, b, unlock mp))

unfoldable pub seq_write : Memphy → ℕ → ℕ → Outcome (ℕ × Memphy)
unfolding mv_csr store unlock
seq_write mp addr b =
    if mp.rdmflg == 0
    then ok (minus_one, unlock mp)
    else (do (_, mp) ← mv_csr mp addr; mp ← store mp addr b; ok (0, unlock mp))

unfoldable pub write : Memphy → ℕ → ℕ → Outcome (ℕ × Memphy)
unfolding lock seq_write store unlock
write mp addr b = do
  mp ← lock mp
  if mp.rdmflg == 0 then seq_write mp addr b else (do mp ← store mp addr b; ok (0, unlock mp))

-- The loop of `MEMPHY_format`, by the rounds left: the nodes from `iter` on, up to the last,
-- whose `fp_next` is set to NULL.
frames_from : ℕ → ℕ → List ℕ
frames_from zero iter = []
frames_from (suc n) iter = iter ∷ frames_from n (iter + 1)

-- The first node's `fp_next` is set only by the loop. `wild` is the chain that its uninitialised
-- value leads to.
unfoldable pub format : (wild : List ℕ) → Memphy → ℕ → Outcome (ℕ × Memphy)
unfolding lock unlock frames_from
format wild mp pagesz = do
  mp ← lock mp
  let numfp = mp.maxsz / pagesz
  if is_negative mp.maxsz || numfp == 0
      then ok (minus_one, unlock mp)
      else ok (
        0,
        unlock (record mp {
          free_fp_list = 0 ∷ (if numfp == 1 then wild else frames_from (numfp - 1) 1);
        }),
      )

-- `fpn` is what `*retfpn` holds before the call.
unfoldable pub get_freefp : Memphy → (fpn : ℕ) → Outcome (ℕ × ℕ × Memphy)
unfolding lock unlock
get_freefp mp fpn = do
  mp ← lock mp
  elim mp.free_fp_list [
    | [] ↦ ok (minus_one, fpn, unlock mp)
    | f ∷ fs ↦ ok (0, f, unlock (record mp { free_fp_list = fs }))
  ]

unfoldable pub put_freefp : Memphy → ℕ → Outcome (ℕ × Memphy)
unfolding lock unlock
put_freefp mp fpn = do
  mp ← lock mp
  ok (0, unlock (record mp { free_fp_list = fpn ∷ mp.free_fp_list }))

-- `storage` is what `malloc` returns; `mp` holds the fields before the call, of which the list of
-- free frames survives where `MEMPHY_format` fails.
unfoldable pub init_memphy :
    (wild storage : List ℕ) → Memphy → (max_size randomflg : ℕ) → Outcome (ℕ × Memphy)
unfolding format
init_memphy wild storage mp max_size randomflg = do
  (_, mp) ← format wild (record mp { locked = false; storage = storage; maxsz = max_size }) pagesz
  let mp = record mp { rdmflg = if randomflg == 0 then 0 else 1 }
  ok (0, if mp.rdmflg == 0 then record mp { cursor = 0 } else mp)

-- The loop of `__swap_cp_page`, by the rounds left. `junk` is the value of the uninitialised
-- local `data`.
module _ (junk srcfpn dstfpn : ℕ) where
  swap_loop : ℕ → ℕ → Memphy → Memphy → Outcome (Memphy × Memphy)
  unfolding read write
  swap_loop zero cellidx mpsrc mpdst = ok (mpsrc, mpdst)
  swap_loop (suc n) cellidx mpsrc mpdst = do
    (_, byte, mpsrc) ← read mpsrc (srcfpn * pagesz + cellidx) junk
    (_, mpdst) ← write mpdst (dstfpn * pagesz + cellidx) byte
    swap_loop n (cellidx + 1) mpsrc mpdst

-- Both devices after the call. The program always calls it with two different devices.
unfoldable pub swap_cp_page :
    (junk : ℕ) → Memphy → (srcfpn : ℕ) → Memphy → (dstfpn : ℕ) → Outcome (Memphy × Memphy)
unfolding swap_loop
swap_cp_page junk mpsrc srcfpn mpdst dstfpn = swap_loop junk srcfpn dstfpn pagesz 0 mpsrc mpdst
