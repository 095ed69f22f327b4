-- ===== src/Os/Written.antt =====
-- The text of a configuration that `read_config` of src/os.c reads.
use Prim.Native.String.{String}
use os_sim.Base.{
  ℕ, ◌<◌, ◌≡◌, ◌^◌, Bool, refl, true, false, some, List, [], ◌∷◌, length, All, ok, ltb, is_negative,
  arith,
}
use os_sim.Loader.{strlen}
use os_sim.Os.Config.{
  IntScanner, Entry, Config, proc_sz, scan_int, scan_ints, scan_each, scan_entry, scan_entries,
  read_config,
}

-- A file that starts with a number or a word, followed by white space, and what `fscanf` converts
-- there.
pub record Text (F : Type 0) (f : IntScanner F) : Type 0 where
  pub is_word : String → Bool
  pub put_int : ℕ → F → F
  pub put_long : ℕ → F → F
  pub put_word : String → F → F
  pub int_read : (n : ℕ) (file : F) → n < 2 ^ 32 → f.int (put_int n file) ≡ (some n, file)
  pub long_read : (n : ℕ) (file : F) → n < 2 ^ 64 → f.long (put_long n file) ≡ (some n, file)
  pub word_read :
      (w : String) (file : F) → is_word w ≡ true → f.scanner.word (put_word w file) ≡ (some w, file)

module _ {F : Type 0} (f : IntScanner F) (t : Text F f) where
  -- What fits the types of the fields and the buffer.
  abbrev pub IsEntry : Entry → Type 0
  IsEntry e =
      (e.start_time < 2 ^ 64)
      × (e.prio < 2 ^ 64)
      × (t.is_word e.proc ≡ true)
      × (strlen e.proc < proc_sz)

  pub put_each : List ℕ → F → F
  put_each [] file = file
  put_each (n ∷ rest) file = t.put_int n (put_each rest file)

  pub put_entries : List Entry → F → F
  put_entries [] file = file
  put_entries (e ∷ rest) file =
      t.put_long e.start_time (t.put_word e.proc (t.put_long e.prio (put_entries rest file)))

  pub put_config : Config → List Entry → F → F
  put_config c entries file = t.put_int c.time_slot (
      t.put_int c.num_cpus (
        t.put_int c.num_processes (
          t.put_int c.memramsz
            (put_each c.memswpsz (t.put_int c.vmemsz (put_entries entries file))))))

  scan_int_lem : (a n : ℕ) (file : F) → n < 2 ^ 32 → scan_int f a (t.put_int n file) ≡ (n, file)
  unfolding scan_int
  scan_int_lem a n file h = ground (arith, t.int_read n file h)

  scan_ints_lem :
      (a b c n k l : ℕ) (file : F)
      → n < 2 ^ 32
      → k < 2 ^ 32
      → l < 2 ^ 32
      → scan_ints f a b c (t.put_int n (t.put_int k (t.put_int l file))) ≡ (n, k, l, file)
  unfolding scan_ints
  scan_ints_lem a b c n k l file h g i = ground (
    arith,
    t.int_read n (t.put_int k (t.put_int l file)) h,
    t.int_read k (t.put_int l file) g,
    scan_int_lem c l file i,
  )

  scan_each-put_each :
      (before ns : List ℕ) (file : F)
      → length before ≡ length ns
      → All (λ n. n < 2 ^ 32) ns
      → scan_each f before (put_each ns file) ≡ (ns, file)
  unfolding scan_each put_each
  scan_each-put_each [] [] file len h = refl
  scan_each-put_each [] (n ∷ ns) file len h = absurd (omega (arith, len))
  scan_each-put_each (b ∷ before) [] file len h = absurd (omega (arith, len))
  scan_each-put_each (b ∷ before) (n ∷ ns) file len h =
      rw
        (
          scan_int_lem b n (put_each ns file) h.0,
          scan_each-put_each before ns file (omega (arith, len)) h.1,
        )
        refl

  scan_entry_lem :
      (prio : ℕ) (e : Entry) (file : F)
      → IsEntry e
      → scan_entry f prio (t.put_long e.start_time (t.put_word e.proc (t.put_long e.prio file)))
        ≡ ok (e, file)
  unfolding scan_entry
  scan_entry_lem prio e file h =
      let short : ltb (strlen e.proc) proc_sz ≡ true = ground (arith, h.3) in
      ground (
        arith,
        short,
        t.long_read e.start_time (t.put_word e.proc (t.put_long e.prio file)) h.0,
        t.word_read e.proc (t.put_long e.prio file) h.2,
        t.long_read e.prio file h.1,
      )

  scan_entries-put_entries :
      (prio : ℕ) (entries : List Entry) (file : F)
      → All IsEntry entries
      → scan_entries f prio (length entries) (put_entries entries file) ≡ ok (entries, file)
  unfolding scan_entries put_entries
  scan_entries-put_entries prio [] file h = refl
  scan_entries-put_entries prio (e ∷ rest) file h =
      rw
        (
          scan_entry_lem prio e (put_entries rest file) h.0,
          scan_entries-put_entries prio rest file h.1,
        )
        refl

  -- `read_config` of a file with the numbers of a configuration, below 2^32, the sizes of as many
  -- swap devices as it has, and an entry for each process, whose paths fit the buffer: it returns
  -- that configuration and these entries.
  pub read_config-put_config :
      (prio : ℕ) (before c : Config) (entries : List Entry) (file : F)
      → c.time_slot < 2 ^ 32
      → c.num_cpus < 2 ^ 32
      → c.num_processes ≡ length entries
      → c.num_processes < 2 ^ 31
      → c.memramsz < 2 ^ 32
      → length before.memswpsz ≡ length c.memswpsz
      → All (λ n. n < 2 ^ 32) c.memswpsz
      → c.vmemsz < 2 ^ 32
      → All IsEntry entries
      → read_config f prio before (some (put_config c entries file)) ≡ ok (c, entries)
  unfolding read_config put_config
  read_config-put_config prio before c entries file ht hc hn hs hr len hw hv he =
      let counted : is_negative c.num_processes ≡ false = ground arith in
      rw
        (
          scan_ints_lem before.time_slot before.num_cpus before.num_processes c.time_slot c.num_cpus
              c.num_processes
              (t.put_int c.memramsz
                (put_each c.memswpsz (t.put_int c.vmemsz (put_entries entries file))))
              ht hc (omega arith),
          scan_int_lem before.memramsz c.memramsz
              (put_each c.memswpsz (t.put_int c.vmemsz (put_entries entries file))) hr,
          scan_each-put_each before.memswpsz c.memswpsz
              (t.put_int c.vmemsz (put_entries entries file)) len hw,
          scan_int_lem before.vmemsz c.vmemsz (put_entries entries file) hv,
          counted,
          hn,
          scan_entries-put_entries prio entries file he,
        )
        refl
