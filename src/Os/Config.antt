-- ===== src/Os/Config.antt =====
-- src/os.c: `read_config`, over the numbers and words that `fscanf` reads.
use Prim.Native.String.{String}
use os_sim.Base.{
  ℕ, zero, suc, Option, none, some, List, [], ◌∷◌, Outcome, ok, exited, fault, ◌>>=◌, ltb,
  if◌then◌else◌, is_negative,
}
use os_sim.Loader.{Scanner, strlen}

-- One conversion of `%d`, as the bit pattern of an `int`, or of `%lu`, besides those of `Scanner`.
pub record IntScanner (F : Type 0) : Type 0 where
  pub scanner : Scanner F
  pub int : F → Option ℕ × F
  pub long : F → Option ℕ × F

-- An entry of `ld_processes`; `proc` is the path after "input/proc/".
pub record Entry : Type 0 where
  pub start_time : ℕ
  pub proc : String
  pub prio : ℕ

-- The static variables that the function sets.
pub record Config : Type 0 where
  pub time_slot : ℕ
  pub num_cpus : ℕ
  pub num_processes : ℕ
  pub memramsz : ℕ
  pub memswpsz : List ℕ
  pub vmemsz : ℕ

-- The size of `path[i]` less the length of "input/proc/".
abbrev pub proc_sz : ℕ
proc_sz = 89

module _ {F : Type 0} (f : IntScanner F) where
  -- `fscanf` of one `%d`, whose result is not read; `a` is what the pointer holds before.
  unfoldable pub scan_int : (a : ℕ) → F → ℕ × F
  scan_int a file = let (n, file) = f.int file in elim n [ none ↦ (a, file) | some n ↦ (n, file) ]

  -- `fscanf(file, "%d %d %d")` stops at the first that is not converted.
  unfoldable pub scan_ints : (a b c : ℕ) → F → ℕ × ℕ × ℕ × F
  scan_ints a b c file =
      let (n, file) = f.int file in
      elim n [
        | none ↦ (a, b, c, file)
        | some n ↦
            let (k, file) = f.int file in
            elim k [
              | none ↦ (n, b, c, file)
              | some k ↦ let (c, file) = scan_int c file in (n, k, c, file)
            ]
      ]

  -- The loop over the swap devices.
  unfoldable pub scan_each : List ℕ → F → List ℕ × F
  scan_each [] file = ([], file)
  scan_each (a ∷ rest) file =
      let (a, file) = scan_int a file in let (rest, file) = scan_each rest file in (a ∷ rest, file)

  -- The body of the loop over the processes. `prio` is what `malloc` left; `proc` is
  -- uninitialised, so that it must be converted, and must fit the path.
  unfoldable pub scan_entry : (prio : ℕ) → F → Outcome (Entry × F)
  scan_entry prio file =
      let (n, file) = f.long file in
      elim n [
        | none ↦ fault
        | some n ↦
            let (w, file) = f.scanner.word file in
            elim w [
              | none ↦ fault
              | some w ↦
                  if ltb (strlen w) proc_sz
                  then (let (k, file) = f.long file in
                      ok (
                        record {
                          start_time = n;
                          proc = w;
                          prio = elim k [ none ↦ prio | some k ↦ k ];
                        },
                        file,
                      ))
                  else fault
            ]
      ]

  -- The loop, by the rounds left.
  unfoldable pub scan_entries : (prio : ℕ) → ℕ → F → Outcome (List Entry × F)
  scan_entries prio zero file = ok ([], file)
  scan_entries prio (suc n) file = do
    (e, file) ← scan_entry prio file
    (rest, file) ← scan_entries prio n file
    ok (e ∷ rest, file)

  -- A file that is `none` could not be opened.
  unfoldable pub read_config : (prio : ℕ) → Config → Option F → Outcome (Config × List Entry)
  read_config prio c none = exited
  read_config prio c (some file) = do
    let (time_slot, num_cpus, num_processes, file) =
        scan_ints c.time_slot c.num_cpus c.num_processes file
    let (memramsz, file) = scan_int c.memramsz file
    let (memswpsz, file) = scan_each c.memswpsz file
    let (vmemsz, file) = scan_int c.vmemsz file
    (entries, file) ←
        scan_entries prio (if is_negative num_processes then 0 else num_processes) file
    ok (
      record {
        time_slot = time_slot;
        num_cpus = num_cpus;
        num_processes = num_processes;
        memramsz = memramsz;
        memswpsz = memswpsz;
        vmemsz = vmemsz;
      },
      entries,
    )
