-- ===== src/PageFifo.antt =====
-- The list of pages of a process in the order of their mapping, newest first: `enlist_pgn_node` of
-- src/mm.c and `find_victim_page` of src/mm-vm.c, which the program uses in place of the list of
-- Lru when LRU is not defined. A linked list of page numbers is a list.
use os_sim.Base.{ℕ, ◌≡◌, refl, ap, List, [], ◌∷◌, ◌++◌, minus_one}

-- The `int` and the new list.
unfoldable pub enlist_pgn_node : List ℕ → (pgn : ℕ) → ℕ × List ℕ
enlist_pgn_node plist pgn = (0, pgn ∷ plist)

-- The `while` loop: the page of the last node, and the list without it, from the node `pg` on.
cut_last : ℕ → List ℕ → ℕ × List ℕ
cut_last pg [] = (pg, [])
cut_last pg (next ∷ rest) = let cut = cut_last next rest in (cut.0, pg ∷ cut.1)

-- The `int`, what the pointer holds afterwards (`retpgn` before), and the new list.
unfoldable pub find_victim_page : List ℕ → (retpgn : ℕ) → ℕ × ℕ × List ℕ
unfolding cut_last
find_victim_page [] retpgn = (minus_one, retpgn, [])
find_victim_page (pg ∷ []) retpgn = (0, pg, [])
find_victim_page (pg ∷ next ∷ rest) retpgn =
    let cut = cut_last pg (next ∷ rest) in (0, cut.0, cut.1)

cut_last-append : (pg : ℕ) (xs : List ℕ) (y : ℕ) → cut_last pg (xs ++ (y ∷ [])) ≡ (y, pg ∷ xs)
unfolding cut_last
cut_last-append pg [] y = refl
cut_last-append pg (x ∷ xs) y = ap (λ t. (t.0, pg ∷ t.1)) (cut_last-append x xs y)

-- `find_victim_page` takes the page that was enlisted first, whatever was enlisted after it, and
-- leaves the others in their order; `enlist_pgn_node` of one more page does not change the victim.
pub find_victim_page-enlist_pgn_node :
    (xs : List ℕ) (y p retpgn : ℕ)
    → (find_victim_page (xs ++ (y ∷ [])) retpgn ≡ (0, y, xs))
      × (find_victim_page (enlist_pgn_node (xs ++ (y ∷ [])) p).1 retpgn ≡ (0, y, p ∷ xs))
unfolding find_victim_page enlist_pgn_node
find_victim_page-enlist_pgn_node [] y p retpgn = (refl, refl)
find_victim_page-enlist_pgn_node (x ∷ xs) y p retpgn =
    (first xs, ap (λ t. (0, t.0, t.1)) (cut_last-append p (x ∷ xs) y))
  where
    first : (xs : List ℕ) → find_victim_page (x ∷ (xs ++ (y ∷ []))) retpgn ≡ (0, y, x ∷ xs)
    first [] = refl
    first (z ∷ zs) = ap (λ t. (0, t.0, t.1)) (cut_last-append x (z ∷ zs) y)
