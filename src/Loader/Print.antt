-- ===== src/Loader/Print.antt =====
-- The text of a program that src/loader.c reads.
use Prim.Native.String.{String}
use os_sim.Base.{
  ℕ, ◌+◌, ◌<◌, ◌≡◌, ◌^◌, refl, true, none, some, List, [], ◌∷◌, length, All, ok, arith, ltb, u32,
}
use os_sim.Processor.{Opcode, Inst}
use os_sim.Processor.Opcode.{calc, alloc, malloc, free, read, write}
use os_sim.Loader.{
  Scanner, page_size, strlen, opcode_sz, get_opcode, scan_1, scan_2, scan_3, scan_args, scan_opcode,
  load_loop, load,
}

abbrev pub opcode_name : Opcode → String
opcode_name calc = "calc"
opcode_name alloc = "alloc"
opcode_name malloc = "malloc"
opcode_name free = "free"
opcode_name read = "read"
opcode_name write = "write"

-- A file that starts with the name of an opcode, or with a number, followed by white space, or that
-- is at its end, and what `fscanf` converts there: `%s` the name, `%u` a number below 2^32 and
-- nothing of a name or at the end.
pub record Text (F : Type 0) (scanner : Scanner F) : Type 0 where
  pub put_opcode : Opcode → F → F
  pub put_number : ℕ → F → F
  pub ended : F
  pub word_read :
      (op : Opcode) (f : F) → scanner.word (put_opcode op f) ≡ (some (opcode_name op), f)
  pub number_read : (n : ℕ) (f : F) → n < 2 ^ 32 → scanner.number (put_number n f) ≡ (some n, f)
  pub not_number :
      (op : Opcode) (f : F) → scanner.number (put_opcode op f) ≡ (none, put_opcode op f)
  pub at_end : scanner.number ended ≡ (none, ended)

-- The arguments are of the type `uint32_t`.
abbrev pub IsWide : Inst → Type 0
IsWide ins = (ins.arg_0 < 2 ^ 32) × (ins.arg_1 < 2 ^ 32) × (ins.arg_2 < 2 ^ 32)

-- An instruction of memory with the opcode of another, and those of its arguments that the opcode
-- has.
abbrev filled : Opcode → (before ins : Inst) → Inst
filled calc before ins = record before { opcode = calc }
filled alloc before ins = record before { opcode = alloc; arg_0 = ins.arg_0; arg_1 = ins.arg_1 }
filled malloc before ins = record before { opcode = malloc; arg_0 = ins.arg_0; arg_1 = ins.arg_1 }
filled free before ins = record before { opcode = free; arg_0 = ins.arg_0 }
filled read before ins = record ins { opcode = read }
filled write before ins = record ins { opcode = write }

abbrev pub filled_all : (before text : List Inst) → List Inst
filled_all [] text = []
filled_all (b ∷ before) [] = []
filled_all (b ∷ before) (ins ∷ text) = filled ins.opcode b ins ∷ filled_all before text

get_opcode-opcode_name : (op : Opcode) → get_opcode (opcode_name op) ≡ ok op
unfolding get_opcode
get_opcode-opcode_name calc = refl
get_opcode-opcode_name alloc = refl
get_opcode-opcode_name malloc = refl
get_opcode-opcode_name free = refl
get_opcode-opcode_name read = refl
get_opcode-opcode_name write = refl

short_name : (op : Opcode) → ltb (strlen (opcode_name op)) opcode_sz ≡ true
short_name calc = refl
short_name alloc = refl
short_name malloc = refl
short_name free = refl
short_name read = refl
short_name write = refl

module _ {F : Type 0} (scanner : Scanner F) (t : Text F scanner) where
  print_args : Opcode → Inst → F → F
  print_args calc ins f = f
  print_args alloc ins f = t.put_number ins.arg_0 (t.put_number ins.arg_1 f)
  print_args malloc ins f = t.put_number ins.arg_0 (t.put_number ins.arg_1 f)
  print_args free ins f = t.put_number ins.arg_0 f
  print_args read ins f = t.put_number ins.arg_0 (t.put_number ins.arg_1 (t.put_number ins.arg_2 f))
  print_args write ins f =
      t.put_number ins.arg_0 (t.put_number ins.arg_1 (t.put_number ins.arg_2 f))

  pub print : List Inst → F
  unfolding print_args
  print [] = t.ended
  print (ins ∷ rest) = t.put_opcode ins.opcode (print_args ins.opcode ins (print rest))

  scan_1_lem : (a n : ℕ) (f : F) → n < 2 ^ 32 → scan_1 scanner a (t.put_number n f) ≡ (n, f)
  unfolding scan_1
  scan_1_lem a n f h = ground (arith, t.number_read n f h)

  scan_1_stop : (a : ℕ) (f : F) → scanner.number f ≡ (none, f) → scan_1 scanner a f ≡ (a, f)
  unfolding scan_1
  scan_1_stop a f e = ground (arith, e)

  scan_2_lem :
      (a b n k : ℕ) (f : F)
      → n < 2 ^ 32
      → k < 2 ^ 32
      → scan_2 scanner a b (t.put_number n (t.put_number k f)) ≡ (n, k, f)
  unfolding scan_2
  scan_2_lem a b n k f h g =
      ground (arith, t.number_read n (t.put_number k f) h, scan_1_lem b k f g)

  scan_3_lem :
      (a b c n k l : ℕ) (f : F)
      → n < 2 ^ 32
      → k < 2 ^ 32
      → l < 2 ^ 32
      → scan_3 scanner a b c (t.put_number n (t.put_number k (t.put_number l f))) ≡ (n, k, l, f)
  unfolding scan_3
  scan_3_lem a b c n k l f h g i =
      ground
        (arith, t.number_read n (t.put_number k (t.put_number l f)) h, scan_2_lem b c k l f g i)

  scan_args-print_args :
      (op : Opcode) (before ins : Inst) (f : F)
      → IsWide ins
      → scanner.number f ≡ (none, f)
      → scan_args scanner op (record before { opcode = op }) (print_args op ins f)
        ≡ (filled op before ins, f)
  unfolding scan_args print_args
  scan_args-print_args calc before ins f w stop = refl
  scan_args-print_args alloc before ins f w stop =
      rw (scan_2_lem before.arg_0 before.arg_1 ins.arg_0 ins.arg_1 f w.0 w.1) refl
  scan_args-print_args malloc before ins f w stop =
      rw
        (
          scan_2_lem before.arg_0 before.arg_1 ins.arg_0 ins.arg_1 f w.0 w.1,
          scan_1_stop ins.arg_0 f stop,
        )
        refl
  scan_args-print_args free before ins f w stop = rw (scan_1_lem before.arg_0 ins.arg_0 f w.0) refl
  scan_args-print_args read before ins f w stop =
      rw
        (scan_3_lem before.arg_0 before.arg_1 before.arg_2 ins.arg_0 ins.arg_1 ins.arg_2 f w.0 w.1
          w.2)
        refl
  scan_args-print_args write before ins f w stop =
      rw
        (scan_3_lem before.arg_0 before.arg_1 before.arg_2 ins.arg_0 ins.arg_1 ins.arg_2 f w.0 w.1
          w.2)
        refl

  print-stops : (text : List Inst) → scanner.number (print text) ≡ (none, print text)
  unfolding print
  print-stops [] = t.at_end
  print-stops (ins ∷ rest) = t.not_number ins.opcode (print_args ins.opcode ins (print rest))

  scan_opcode_lem :
      (op : Opcode) (opcode : String) (f : F)
      → scan_opcode scanner opcode (t.put_opcode op f) ≡ ok (opcode_name op, f)
  unfolding scan_opcode
  scan_opcode_lem op opcode f = ground (arith, t.word_read op f, short_name op)

  load_loop-print :
      (before text : List Inst) (opcode : String)
      → length before ≡ length text
      → All IsWide text
      → load_loop scanner before opcode (print text) ≡ ok (filled_all before text, t.ended)
  unfolding load_loop print
  load_loop-print [] [] opcode len w = refl
  load_loop-print [] (ins ∷ text) opcode len w = absurd (omega (arith, len))
  load_loop-print (b ∷ before) [] opcode len w = absurd (omega (arith, len))
  load_loop-print (b ∷ before) (ins ∷ text) opcode len w =
      rw
        (
          scan_opcode_lem ins.opcode opcode (print_args ins.opcode ins (print text)),
          get_opcode-opcode_name ins.opcode,
          scan_args-print_args ins.opcode b ins (print text) w.0 (print-stops text),
          load_loop-print before text (opcode_name ins.opcode) (omega (arith, len)) w.1,
        )
        refl

  -- `load` of a file with a priority, the number of instructions and as many instructions by name
  -- with their arguments, all numbers below 2^32: it returns a process at the first instruction,
  -- with that priority and these instructions, and takes the next process number. The case MALLOC
  -- goes on with FREE, but no number follows. Arguments that an opcode does not have stay as
  -- `malloc` left them.
  pub load-print :
      (code : ℕ → List Inst) (priority size : ℕ) (opcode : String) (avail_pid prio : ℕ)
      (text : List Inst)
      → length (code (length text)) ≡ length text
      → All IsWide text
      → prio < 2 ^ 32
      → length text < 2 ^ 32
      → load scanner code priority size opcode avail_pid
          (some (t.put_number prio (t.put_number (length text) (print text))))
        ≡ ok (
          record {
            pid = avail_pid;
            priority = prio;
            size = length text;
            text = filled_all (code (length text)) text;
            pc = 0;
            bp = page_size;
          },
          u32 (avail_pid + 1),
        )
  unfolding load
  load-print code priority size opcode avail_pid prio text len w hp hn =
      rw
        (
          scan_2_lem priority size prio (length text) (print text) hp hn,
          load_loop-print (code (length text)) text opcode len w,
        )
        refl
