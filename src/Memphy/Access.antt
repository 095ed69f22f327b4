-- ===== src/Memphy/Access.antt =====
-- Reads and writes of single bytes on a device of src/mm-memphy.c.
use os_sim.Base.{
  ℕ, zero, suc, ◌≤◌, ◌⊎◌, inl, inr, ◌∙◌, [], ◌∷◌, dec_lt, ◌<◌, ◌≡◌, ◌≢◌, refl, false, none, some,
  List, set, get_elem?, length, get_elem?-set_self, get_elem?-set_ne, ok, fault, arith, minus_one,
}
use os_sim.Memphy.{Memphy, read, write}

-- A random-access device that no thread works on.
pub record IsRandom (mp : Memphy) : Type 0 where
  pub idle : mp.locked ≡ false
  pub random : mp.rdmflg ≢ 0

pub read_random :
    (mp : Memphy) (addr value b : ℕ)
    → IsRandom mp
    → get_elem? mp.storage addr ≡ some b
    → read mp addr value ≡ ok (0, b, mp)
unfolding read
read_random mp addr value b v e = ground arith

pub write_random :
    (mp : Memphy) (addr b : ℕ)
    → IsRandom mp
    → addr < length mp.storage
    → write mp addr b ≡ ok (0, record mp { storage = set mp.storage addr b })
unfolding write
write_random mp addr b v h = ground arith

get_elem?-none : (xs : List ℕ) (i : ℕ) → length xs ≤ i → get_elem? xs i ≡ none
get_elem?-none [] i h = refl
get_elem?-none (x ∷ xs) zero h = absurd (omega arith)
get_elem?-none (x ∷ xs) (suc i) h = get_elem?-none xs i (omega arith)

read_found :
    (mp : Memphy) (addr value b : ℕ)
    → IsRandom mp
    → read mp addr value ≡ ok (0, b, mp)
    → get_elem? mp.storage addr ≡ some b
unfolding read
read_found mp addr value b v e = ground arith

read_outside :
    (mp : Memphy) (addr value : ℕ)
    → IsRandom mp
    → length mp.storage ≤ addr
    → read mp addr value ≡ fault
unfolding read
read_outside mp addr value v h = ground (arith, get_elem?-none mp.storage addr h)

write_outside :
    (mp : Memphy) (addr b : ℕ) → IsRandom mp → length mp.storage ≤ addr → write mp addr b ≡ fault
unfolding write
write_outside mp addr b v h = ground arith

-- On a random-access device that is not locked, `MEMPHY_write` within the storage changes one byte:
-- a later `MEMPHY_read` finds it there, and finds at any other address of the storage what it would
-- have found before. Outside the storage both fault.
pub read-write :
    (mp : Memphy) (addr other b value : ℕ)
    → IsRandom mp
    → ((mp' : Memphy) × (addr < length mp.storage)
        × (write mp addr b ≡ ok (0, mp'))
        × IsRandom mp'
        × (read mp' addr value ≡ ok (0, b, mp'))
        × ((c : ℕ)
            → addr ≢ other
            → read mp other value ≡ ok (0, c, mp)
            → read mp' other value ≡ ok (0, c, mp')))
      ⊎ ((length mp.storage ≤ addr) × (write mp addr b ≡ fault) × (read mp addr value ≡ fault))
read-write mp addr other b value v = elim (dec_lt addr (length mp.storage)) [
  | yes h ↦
      let mp' : Memphy = record mp { storage = set mp.storage addr b } in
      let v' : IsRandom mp' = record { idle = v.idle; random = v.random } in
      inl (
        mp',
        h,
        write_random mp addr b v h,
        v',
        read_random mp' addr value b v' (get_elem?-set_self mp.storage addr b h),
        λ c ne e.
            read_random mp' other value c v'
              (get_elem?-set_ne mp.storage addr other b ne ∙ read_found mp other value c v e),
      )
  | no h ↦ inr (
    omega arith,
    write_outside mp addr b v (omega arith),
    read_outside mp addr value v (omega arith),
  )
]

-- On a sequential device that is not locked, `MEMPHY_read` and `MEMPHY_write` return -1 and touch
-- neither the storage nor the value.
pub sequential_refuses :
    (mp : Memphy) (addr b : ℕ)
    → mp.locked ≡ false
    → mp.rdmflg ≡ 0
    → (read mp addr b ≡ ok (minus_one, b, mp)) × (write mp addr b ≡ ok (minus_one, mp))
unfolding read write
sequential_refuses mp addr b e f = ground arith
