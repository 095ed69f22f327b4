-- ===== src/Processor/Program.antt =====
-- A whole program on `run` of src/cpu.c.
use os_sim.Base.{
  ℕ, false, zero, suc, ◌+◌, ◌^◌, ◌<◌, ◌≡◌, refl, sym, ◌∙◌, ap, subst, some, List, [], ◌∷◌, ◌++◌,
  Outcome, ok, exited, fault, blocked, no_fuel, ◌>>=◌, get_elem?, length, length-append, leb, u32,
  arith,
}
use os_sim.Processor.{Inst, Process, Paging, execute, run}

module _ {M : Type 0} (paging : Paging M) where
  -- `run` so many times; the processor ignores what it returns.
  pub runs : ℕ → Process M → Outcome (Process M)
  runs zero proc = ok proc
  runs (suc n) proc = do (_, proc) ← run paging proc; runs n proc

  -- The instructions one after the other.
  unfoldable pub execute_all : List Inst → M → Outcome M
  execute_all [] mem = ok mem
  execute_all (ins ∷ rest) mem = do
    (_, mem) ← execute paging ins.opcode ins mem
    execute_all rest mem

  get_elem?-append :
      (xs : List Inst) (y : Inst) (ys : List Inst) → get_elem? (xs ++ (y ∷ ys)) (length xs) ≡ some y
  get_elem?-append [] y ys = refl
  get_elem?-append (x ∷ xs) y ys = get_elem?-append xs y ys

  -- A process with the program `text`.
  abbrev pub at_point : (text : List Inst) (pc : ℕ) → M → Process M
  at_point text pc mem = record { text = text; size = length text; pc = pc; memory = mem }

  run_lem :
      (text : List Inst) (pc : ℕ) (ins : Inst) (mem : M)
      → length text < 2 ^ 32
      → pc < length text
      → get_elem? text pc ≡ some ins
      → run paging (at_point text pc mem)
        ≡ (execute paging ins.opcode ins mem >>= λ z. ok (z.0, at_point text (pc + 1) z.1))
  unfolding run
  run_lem text pc ins mem h g e =
      let inside : leb (length text) pc ≡ false = ground arith in
      let next : u32 (pc + 1) ≡ pc + 1 = omega arith in rw (inside, e, next) refl

  append_assoc :
      (xs : List Inst) (y : Inst) (ys : List Inst) → (xs ++ (y ∷ [])) ++ ys ≡ xs ++ (y ∷ ys)
  append_assoc [] y ys = refl
  append_assoc (x ∷ xs) y ys = ap (λ t. x ∷ t) (append_assoc xs y ys)

  append_nil : (xs : List Inst) → xs ++ [] ≡ xs
  append_nil [] = refl
  append_nil (x ∷ xs) = ap (λ t. x ∷ t) (append_nil xs)

  -- The call returns or ends as `o` does, and then goes on in the same way.
  bind_cong :
      {A B : Type 0} (o : Outcome A) (f g : A → Outcome B)
      → ((a : A) → f a ≡ g a)
      → (o >>= f) ≡ (o >>= g)
  bind_cong (ok a) f g h = h a
  bind_cong exited f g h = refl
  bind_cong fault f g h = refl
  bind_cong blocked f g h = refl
  bind_cong no_fuel f g h = refl

  bind_assoc :
      {A B C : Type 0} (o : Outcome A) (f : A → Outcome B) (g : B → Outcome C)
      → ((o >>= f) >>= g) ≡ (o >>= λ a. f a >>= g)
  bind_assoc (ok a) f g = refl
  bind_assoc exited f g = refl
  bind_assoc fault f g = refl
  bind_assoc blocked f g = refl
  bind_assoc no_fuel f g = refl

  abbrev pub ends_at : List Inst → M → Outcome (Process M)
  ends_at text mem = ok (at_point text (length text) mem)

  runs_from :
      (rest over text : List Inst) (mem : M)
      → over ++ rest ≡ text
      → length text < 2 ^ 32
      → runs (length rest) (at_point text (length over) mem)
        ≡ (execute_all rest mem >>= ends_at text)
  unfolding runs execute_all
  runs_from [] over text mem e h =
      ap (λ k. ok (at_point text k mem)) (ap length (sym (append_nil over) ∙ e))
  runs_from (ins ∷ rest) over text mem e h =
      ap (λ o. o >>= λ z. runs (length rest) z.1)
        (run_lem text (length over) ins mem h
          (omega (arith, ap length e, length-append over (ins ∷ rest)))
          (subst (λ t. get_elem? t (length over) ≡ some ins) e (get_elem?-append over ins rest)))
      ∙ bind_assoc (execute paging ins.opcode ins mem) _ _
      ∙ bind_cong (execute paging ins.opcode ins mem) _ _ (λ a.
        subst
          (λ k. runs (length rest) (at_point text k a.1) ≡ (execute_all rest a.1 >>= ends_at text))
          (length-append over (ins ∷ []))
          (runs_from rest (over ++ (ins ∷ [])) text a.1 (append_assoc over ins rest ∙ e) h))
      ∙ sym (bind_assoc (execute paging ins.opcode ins mem) _ _)

  -- A process at its first instruction, with as many instructions as `code->size` says and below
  -- 2^32 of them: calling `run` once for each executes the program in order and ends with `pc` at
  -- the size, unless an instruction does not return, and then neither does the call. One more `run`
  -- returns 1 and changes nothing.
  pub runs-execute_all :
      (text : List Inst) (mem after : M)
      → length text < 2 ^ 32
      → (runs (length text) (at_point text 0 mem) ≡ (execute_all text mem >>= ends_at text))
        × (run paging (at_point text (length text) after)
            ≡ ok (1, at_point text (length text) after))
  unfolding run
  runs-execute_all text mem after h = (runs_from text [] text mem refl h, ground arith)
