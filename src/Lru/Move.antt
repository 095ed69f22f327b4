-- ===== src/Lru/Move.antt =====
-- The pointer surgery of src/mm-vm.c that makes an entry the most recently used.
use os_sim.Base.{ℕ, ◌≡◌, ◌≢◌, refl, sym, ◌∙◌, some, List, [], ◌∷◌, ◌++◌, ok, arith}
use os_sim.Lru.{Node, Heap, Lru, update, load, set_next, set_pre, append_tail, to_tail}
use os_sim.Lru.Chain.{
  Entry, node, first, last, Apart, Distinct, Seg, Same, Seg-frame, Seg-append, Seg-split, load-ok,
  set_next-ok, set_pre-ok, Same-update, Same-trans, set_pre-Seg, set_next-Seg, last-All,
  Distinct-split, Distinct-append, Across-flip, last-append, Across-rotate, Distinct-rotate,
}

-- The heap, the head and the tail represent the list `xs`, least recently used first.
pub record IsLru (s : Lru) (xs : List Entry) : Type 0 where
  pub head : s.lru_head ≡ first xs 0
  pub tail : s.lru_tail ≡ last 0 xs
  pub chain : Seg s.cell 0 xs 0
  pub distinct : Distinct xs

-- A node behind a segment: the old last node and the new one are written.
pub append_tail-Seg :
    (c : Heap) (head prev : ℕ) (a : Entry) (rest : List Entry) (stop : ℕ) (x : Entry) (next pre : ℕ)
    → Seg c prev (a ∷ rest) stop
    → Distinct (a ∷ rest)
    → Apart x.ptr (a ∷ rest)
    → x.ptr ≢ 0
    → c x.ptr ≡ some (node next pre x)
    → (d : Heap) × (append_tail x.ptr
          (record { cell = c; lru_head = head; lru_tail = last prev (a ∷ rest) })
        ≡ ok (record { cell = d; lru_head = head; lru_tail = x.ptr }))
      × Seg d prev ((a ∷ rest) ++ (x ∷ [])) 0
      × ((zs : List Entry) → Apart x.ptr zs → Apart (last prev (a ∷ rest)) zs → Same c d zs)
unfolding append_tail
append_tail-Seg c head prev a rest stop x next pre s h apart ne e =
    let (d, run, t, same) = set_next-Seg c prev a rest stop x.ptr s h in
    let z = last prev (a ∷ rest) in
    let kept = same (x ∷ []) (λ q. last-All (λ p. x.ptr ≢ p) prev a rest apart (sym q), tt) in
    let n : Node = node next pre x in
    let d2 : Heap = update d x.ptr (record n { lru_pre = z }) in
    let d3 : Heap = update d2 x.ptr (node 0 z x) in
    let twice : (zs : List Entry) → Apart x.ptr zs → Same d d3 zs =
      λ zs u. Same-trans d d2 d3 zs (Same-update d x.ptr _ zs u) (Same-update d2 x.ptr _ zs u) in
    (
      d3,
      rw (
        run,
        set_pre-ok d x.ptr z n ne (kept.0 ∙ e),
        set_next-ok d2 x.ptr 0 (record n { lru_pre = z }) ne (ground arith),
      ),
      Seg-append d3 prev (a ∷ rest) (x ∷ []) 0
          (Seg-frame d d3 prev (a ∷ rest) x.ptr (twice (a ∷ rest) apart) t) (ne, ground arith, tt),
      λ zs u v. Same-trans c d d3 zs (same zs v) (twice zs u),
    )

-- The first of several entries is moved behind the others.
move_first :
    (c : Heap) (x a : Entry) (rest : List Entry) (head tail : ℕ)
    → Seg c 0 (x ∷ a ∷ rest) 0
    → Distinct (x ∷ a ∷ rest)
    → head ≡ x.ptr
    → tail ≡ last 0 (a ∷ rest)
    → (s' : Lru) × (to_tail x.ptr (record { cell = c; lru_head = head; lru_tail = tail }) ≡ ok s')
      × IsLru s' ((a ∷ rest) ++ (x ∷ []))
unfolding to_tail
move_first c x a rest head tail s h eh et =
    let ne : x.ptr ≢ last 0 (a ∷ rest) = last-All (λ p. x.ptr ≢ p) 0 a rest h.0 in
    let (d, run, t, same) = set_pre-Seg c x.ptr 0 a rest 0 s.2 h.1.0 in
    let kept = same (x ∷ []) (λ q. h.0.0 (sym q), tt) in
    let (e, run', u, _) =
      append_tail-Seg d a.ptr 0 a rest 0 x a.ptr 0 t h.1 h.0 s.0 (kept.0 ∙ s.1) in
    (
      record { cell = e; lru_head = a.ptr; lru_tail = x.ptr },
      rw eh (ground (arith, load-ok c x.ptr (node a.ptr 0 x) s.0 s.1, run, run')),
      record {
        head = refl;
        tail = sym (last-append 0 (a ∷ rest) (x ∷ []));
        chain = u;
        distinct = Distinct-rotate x (a ∷ rest) h;
      },
    )

-- The calls that `to_tail` makes for an entry that is neither first nor last.
to_tail_calls :
    (p head tail : ℕ) (c c1 c2 : Heap) (n n1 : Node) (s' : Lru)
    → p ≢ head
    → p ≢ tail
    → load c p ≡ ok n
    → set_next n.lru_pre n.lru_next c ≡ ok c1
    → load c1 p ≡ ok n1
    → set_pre n1.lru_next n1.lru_pre c1 ≡ ok c2
    → append_tail p (record { cell = c2; lru_head = head; lru_tail = tail }) ≡ ok s'
    → to_tail p (record { cell = c; lru_head = head; lru_tail = tail }) ≡ ok s'
unfolding to_tail
to_tail_calls p head tail c c1 c2 n n1 s' nh nt l1 r1 l2 r2 r3 = ground arith

-- An entry between others is moved behind them.
move_middle :
    (c : Heap) (b : Entry) (bs : List Entry) (x a : Entry) (rest : List Entry) (head tail : ℕ)
    → Seg c 0 ((b ∷ bs) ++ (x ∷ a ∷ rest)) 0
    → Distinct ((b ∷ bs) ++ (x ∷ a ∷ rest))
    → head ≡ b.ptr
    → tail ≡ last 0 (a ∷ rest)
    → (s' : Lru) × (to_tail x.ptr (record { cell = c; lru_head = head; lru_tail = tail }) ≡ ok s')
      × IsLru s' ((b ∷ bs) ++ ((a ∷ rest) ++ (x ∷ [])))
move_middle c b bs x a rest head tail s h eh et =
    let (sb, sx) = Seg-split c 0 (b ∷ bs) (x ∷ a ∷ rest) 0 s in
    let (db, dx, across) = Distinct-split (b ∷ bs) (x ∷ a ∷ rest) h in
    let back = Across-flip (b ∷ bs) (x ∷ a ∷ rest) across in
    let z = last 0 (b ∷ bs) in
    let ne : x.ptr ≢ last 0 (a ∷ rest) = last-All (λ p. x.ptr ≢ p) 0 a rest dx.0 in
    let (c1, run1, sb1, same1) = set_next-Seg c 0 b bs x.ptr a.ptr sb db in
    let far : Apart z (x ∷ a ∷ rest) = last-All (λ p. Apart p (x ∷ a ∷ rest)) 0 b bs across in
    let kept1 = same1 (x ∷ a ∷ rest) far in
    let sa1 = Seg-frame c c1 x.ptr (a ∷ rest) 0 kept1.1 sx.2 in
    let (c2, run2, sa2, same2) = set_pre-Seg c1 x.ptr z a rest 0 sa1 dx.1.0 in
    let kept2 = same2 (x ∷ []) (λ q. dx.0.0 (sym q), tt) in
    let sb2 = Seg-frame c1 c2 0 (b ∷ bs) a.ptr (same2 (b ∷ bs) back.1.0) sb1 in
    let ex = kept2.0 ∙ kept1.0 ∙ sx.1 in
    let (c3, run3, u, same3) = append_tail-Seg c2 head z a rest 0 x a.ptr z sa2 dx.1 dx.0 sx.0 ex in
    let sb3 =
      Seg-frame c2 c3 0 (b ∷ bs) a.ptr
        (same3 (b ∷ bs) back.0 (last-All (λ p. Apart p (b ∷ bs)) z a rest back.1)) sb2 in
    (
      record { cell = c3; lru_head = head; lru_tail = x.ptr },
      to_tail_calls x.ptr head tail c c1 c2 (node a.ptr z x) (node a.ptr z x) _
          (λ q. back.0.0 (q ∙ eh)) (λ q. ne (q ∙ et)) (load-ok c x.ptr (node a.ptr z x) sx.0 sx.1)
          run1 (load-ok c1 x.ptr (node a.ptr z x) sx.0 (kept1.0 ∙ sx.1)) run2 (rw et run3),
      record {
        head = eh;
        tail =
            sym
              (last-append 0 (b ∷ bs) ((a ∷ rest) ++ (x ∷ [])) ∙ last-append z (a ∷ rest) (x ∷ []));
        chain = Seg-append c3 0 (b ∷ bs) ((a ∷ rest) ++ (x ∷ [])) 0 sb3 u;
        distinct =
            Distinct-append (b ∷ bs) ((a ∷ rest) ++ (x ∷ [])) db (Distinct-rotate x (a ∷ rest) dx)
              (Across-rotate (b ∷ bs) x (a ∷ rest) across);
      },
    )

-- `to_tail` of any entry of the list succeeds, and puts that entry behind the others.
pub to_tail_lem :
    (s : Lru) (before : List Entry) (x : Entry) (after : List Entry)
    → IsLru s (before ++ (x ∷ after))
    → (s' : Lru) × (to_tail x.ptr s ≡ ok s') × IsLru s' (before ++ (after ++ (x ∷ [])))
to_tail_lem s [] x [] v = (s, unfold to_tail in ground (arith, v.head, v.tail), v)
to_tail_lem s [] x (a ∷ rest) v =
    move_first s.cell x a rest s.lru_head s.lru_tail v.chain v.distinct v.head v.tail
to_tail_lem s (b ∷ bs) x [] v = (
  s,
  unfold to_tail in
      ground (
        arith,
        v.head,
        v.tail,
        last-append 0 (b ∷ bs) (x ∷ []),
        (Across-flip (b ∷ bs) (x ∷ []) (Distinct-split (b ∷ bs) (x ∷ []) v.distinct).2).0.0,
      ),
  v,
)
to_tail_lem s (b ∷ bs) x (a ∷ rest) v =
    move_middle s.cell b bs x a rest s.lru_head s.lru_tail v.chain v.distinct v.head
      (v.tail ∙ last-append 0 (b ∷ bs) (x ∷ a ∷ rest))
