-- ===== src/Loader.antt =====
-- src/loader.c: `get_opcode` and `load`, over the words and numbers that `fscanf` reads.
pub mod Print
mod Tests
use Prim.Native.String.{String}
use text.Mathlib.Text.{◌==◌}
use os_sim.Base.{
  ℕ, suc, ◌+◌, Option, none, some, List, [], ◌∷◌, Outcome, ok, exited, fault, ◌>>=◌, ltb,
  if◌then◌else◌, u32,
}
use os_sim.Processor.{Opcode, Inst}
use os_sim.Processor.Opcode.{calc, alloc, malloc, free, read, write}

-- `strlen`
abbrev pub strlen : String → ℕ
strlen String.[] = 0
strlen (String.◌∷◌ c s) = suc (strlen s)

-- `fscanf` of one `%s` or one `%u`: what it converts, if it does, and the file after it.
pub record Scanner (F : Type 0) : Type 0 where
  pub word : F → Option String × F
  pub number : F → Option ℕ × F

-- What `load` fills in of a process; `page_table` is left out.
pub record Program : Type 0 where
  pub pid : ℕ
  pub priority : ℕ
  pub size : ℕ
  pub text : List Inst
  pub pc : ℕ
  pub bp : ℕ

-- PAGE_SIZE
abbrev pub page_size : ℕ
page_size = 1024

-- The size of the buffer `opcode`.
abbrev pub opcode_sz : ℕ
opcode_sz = 10

unfoldable pub get_opcode : String → Outcome Opcode
get_opcode opt =
    if opt == "calc"
    then ok calc
    else if opt == "alloc"
    then ok alloc
    else if opt == "malloc"
    then ok malloc
    else if opt == "free"
    then ok free
    else if opt == "read"
    then ok read
    else if opt == "write"
    then ok write
    else exited

module _ {F : Type 0} (scanner : Scanner F) where
  -- `fscanf` of one `%u` into each pointer in turn, until one is not converted. The numbers given are
  -- what the pointers hold before.
  unfoldable pub scan_1 : (a : ℕ) → F → ℕ × F
  scan_1 a file =
      let (n, file) = scanner.number file in elim n [ none ↦ (a, file) | some n ↦ (n, file) ]

  unfoldable pub scan_2 : (a b : ℕ) → F → ℕ × ℕ × F
  scan_2 a b file =
      let (n, file) = scanner.number file in
      elim n [ none ↦ (a, b, file) | some n ↦ let (b, file) = scan_1 b file in (n, b, file) ]

  unfoldable pub scan_3 : (a b c : ℕ) → F → ℕ × ℕ × ℕ × F
  scan_3 a b c file =
      let (n, file) = scanner.number file in
      elim n [
        | none ↦ (a, b, c, file)
        | some n ↦ let (b, c, file) = scan_2 b c file in (n, b, c, file)
      ]

  -- The `switch`: the case MALLOC goes on with the case FREE.
  unfoldable pub scan_args : Opcode → Inst → F → Inst × F
  scan_args calc ins file = (ins, file)
  scan_args alloc ins file =
      let (a, b, file) = scan_2 ins.arg_0 ins.arg_1 file in
      (record ins { arg_0 = a; arg_1 = b }, file)
  scan_args malloc ins file =
      let (a, b, file) = scan_2 ins.arg_0 ins.arg_1 file in
      let (a, file) = scan_1 a file in (record ins { arg_0 = a; arg_1 = b }, file)
  scan_args free ins file =
      let (a, file) = scan_1 ins.arg_0 file in (record ins { arg_0 = a }, file)
  scan_args read ins file =
      let (a, b, c, file) = scan_3 ins.arg_0 ins.arg_1 ins.arg_2 file in
      (record ins { arg_0 = a; arg_1 = b; arg_2 = c }, file)
  scan_args write ins file =
      let (a, b, c, file) = scan_3 ins.arg_0 ins.arg_1 ins.arg_2 file in
      (record ins { arg_0 = a; arg_1 = b; arg_2 = c }, file)

  -- `fscanf(file, "%s", opcode)`; a word that does not fit the buffer is written past its end.
  unfoldable pub scan_opcode : (opcode : String) → F → Outcome (String × F)
  scan_opcode opcode file =
      let (w, file) = scanner.word file in
      elim w [
        | none ↦ ok (opcode, file)
        | some w ↦ if ltb (strlen w) opcode_sz then ok (w, file) else fault
      ]

  -- The loop, over the instructions that `malloc` returned.
  unfoldable pub load_loop : List Inst → (opcode : String) → F → Outcome (List Inst × F)
  load_loop [] opcode file = ok ([], file)
  load_loop (ins ∷ rest) opcode file = do
    (opcode, file) ← scan_opcode opcode file
    op ← get_opcode opcode
    let (ins, file) = scan_args op (record ins { opcode = op }) file
    (text, file) ← load_loop rest opcode file
    ok (ins ∷ text, file)

  -- `load` and the static `avail_pid`; a file that is `none` could not be opened. `priority`, `size`
  -- and `opcode` are uninitialised values, `code` is what `malloc` returns for a number of
  -- instructions.
  unfoldable pub load :
      (code : ℕ → List Inst) (priority size : ℕ) (opcode : String) (avail_pid : ℕ)
      → Option F
      → Outcome (Program × ℕ)
  load code priority size opcode avail_pid none = exited
  load code priority size opcode avail_pid (some file) = do
    let (priority, size, file) = scan_2 priority size file
    (text, file) ← load_loop (code size) opcode file
    ok (
      record {
        pid = avail_pid;
        priority = priority;
        size = size;
        text = text;
        pc = 0;
        bp = page_size;
      },
      u32 (avail_pid + 1),
    )
