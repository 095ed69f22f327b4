-- ===== src/Loader/Tests.antt =====
-- The loader of src/loader.c at a concrete file.
use Prim.Native.String.{String}
use os_sim.Base.{ℕ, ◌+◌, ◌≡◌, refl, Option, none, some, List, [], ◌∷◌, replicate, ok, arith, u32}
use os_sim.Processor.{Inst}
use os_sim.Processor.Opcode.{calc, malloc, write}
use os_sim.Loader.{Scanner, page_size, load}
use os_sim.Loader.Print.{opcode_name, Text, filled_all, print, load-print}

-- A file as its words and numbers.
data Token : Type 0 where
  name : String → Token
  decimal : ℕ → Token

abbrev next_word : List Token → Option String × List Token
next_word [] = (none, [])
next_word (name w ∷ rest) = (some w, rest)
next_word (decimal n ∷ rest) = (none, decimal n ∷ rest)

abbrev next_number : List Token → Option ℕ × List Token
next_number [] = (none, [])
next_number (name w ∷ rest) = (none, name w ∷ rest)
next_number (decimal n ∷ rest) = (some n, rest)

abbrev tokens : Scanner (List Token)
tokens = record { word = next_word; number = next_number }

abbrev tokens-Text : Text (List Token) tokens
tokens-Text = record {
  put_opcode = λ op f. name (opcode_name op) ∷ f;
  put_number = λ n f. decimal n ∷ f;
  ended = [];
  word_read = λ op f. refl;
  number_read = λ n f h. refl;
  not_number = λ op f. refl;
  at_end = refl;
}

abbrev unset : Inst
unset = record { opcode = calc; arg_0 = 7; arg_1 = 8; arg_2 = 9 }

-- A program of a MALLOC, a CALC and a WRITE.
abbrev program : List Inst
program =
    record { opcode = malloc; arg_0 = 300; arg_1 = 2; arg_2 = 0 }
    ∷ record { opcode = calc; arg_0 = 0; arg_1 = 0; arg_2 = 0 }
    ∷ record { opcode = write; arg_0 = 65; arg_1 = 2; arg_2 = 20 }
    ∷ []

load-print_example :
    load tokens
      (λ n. replicate n unset)
      1
      2
      ""
      5
      (some (decimal 4 ∷ decimal 3 ∷ print tokens tokens-Text program))
    ≡ ok (
      record {
        pid = 5;
        priority = 4;
        size = 3;
        text = filled_all (replicate 3 unset) program;
        pc = 0;
        bp = page_size;
      },
      u32 (5 + 1),
    )
load-print_example =
    load-print tokens tokens-Text (λ n. replicate n unset) 1 2 "" 5 4 program refl
      (
        (omega arith, omega arith, omega arith),
        ((omega arith, omega arith, omega arith), ((omega arith, omega arith, omega arith), tt)),
      )
      (omega arith) (omega arith)
