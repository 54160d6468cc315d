-- ===== src/Store/List/Tail.antt =====
-- The `tail` that remove_list_item leaves: it is the last node only if the last node was removed.
use legacy_point_monitor.Common.{
  ℕ, suc, ◌+◌, ◌≡◌, ◌≢◌, refl, sym, ◌∙◌, true, none, some, [], ◌∷◌, arith, length, beq_of_ne,
  beq_refl,
}
use legacy_point_monitor.Common.Outcome.{ok, fault}
use legacy_point_monitor.Store.Memory.{
  Ptr, null, node, Memory, put_node, create, load, set_next, set_next-ok,
}
use legacy_point_monitor.Store.List.{ListHandle, push_list_item, remove_list_item}
use legacy_point_monitor.Store.List.Chain.{
  IsList-IsChain, Cells, last_or, Seg, IsList, copy_bytes_self,
}
use legacy_point_monitor.Store.List.Push.{Readable}
use legacy_point_monitor.Store.List.Remove.{contains, erase, before, remove-erase}

-- The value is at the last node, and not before.
abbrev pub AtEnd : Ptr → Cells → Type 0
AtEnd v [] = ⊥
AtEnd v ((a, w) ∷ []) = w ≡ v
AtEnd v ((a, w) ∷ x ∷ xs) = (w ≢ v) × AtEnd v (x ∷ xs)

AtEnd-contains : (v : Ptr) (xs : Cells) → AtEnd v xs → contains v xs ≡ true
AtEnd-contains v [] e = absurd e
AtEnd-contains v ((a, w) ∷ []) e = ground arith
AtEnd-contains v ((a, w) ∷ x ∷ xs) e = ground (arith, AtEnd-contains v (x ∷ xs) e.1)

AtEnd-before : (d v : Ptr) (xs : Cells) → AtEnd v xs → before d v xs ≡ last_or d (erase v xs)
AtEnd-before d v [] e = absurd e
AtEnd-before d v ((a, w) ∷ []) e = ground arith
AtEnd-before d v ((a, w) ∷ (b, x) ∷ xs) (ne, e) =
    rw (beq_of_ne w v ne) (AtEnd-before a v ((b, x) ∷ xs) e)

-- remove_list_item keeps a list well formed when the first node with the value is the last one.
pub remove-IsList :
    (m : Memory) (l : ListHandle) (v : Ptr) (xs : Cells)
    → IsList m.nodes l xs
    → AtEnd v xs
    → (m' : Memory) × (l' : ListHandle) × (remove_list_item l v m ≡ ok ((true, l'), m'))
      × IsList m'.nodes l' (erase v xs)
remove-IsList m l v xs is end =
    let (m', l', run, (chain, tail, size, same, bytes)) =
      remove-erase m l v xs (IsList-IsChain is) (AtEnd-contains v xs end) in
    (m', l', run, record { chain = chain; tail = tail ∙ AtEnd-before null v xs end; size = size })

pub push-no_tail :
    (m : Memory) (l : ListHandle) (fresh value : Ptr) (n : ℕ)
    → fresh ≢ null
    → Readable m value n
    → l.head ≢ null
    → l.tail ≡ null
    → push_list_item fresh l value n m ≡ fault
unfolding push_list_item create set_next load
push-no_tail m l fresh value n ne readable hne tail =
    let copied =
      copy_bytes_self n 0 value (put_node fresh (some (node value null)) m)
        (λ i lt. readable i (omega arith)) in
    rw (beq_of_ne fresh null ne, copied, beq_of_ne l.head null hne, tail) refl

-- `v` is removed, which leaves the chain `rest`, and any push_list_item after that is a fault.
abbrev pub FaultsAfter : Memory → ListHandle → Ptr → Cells → Type 0
FaultsAfter m l v rest =
    (m' : Memory) × (l' : ListHandle) × (remove_list_item l v m ≡ ok ((true, l'), m'))
    × Seg m'.nodes null l'.head rest
    × ((fresh value : Ptr) (n : ℕ)
        → fresh ≢ null
        → Readable m' value n
        → push_list_item fresh l' value n m' ≡ fault)

-- `w` is removed, which leaves the cell `(a, v)` and behind it `(c, y)` and `xs`; any push_list_item
-- after that leaves the first and the pushed cell alone, and a `size` that counts the others too.
abbrev pub DropsAfter : Memory → ListHandle → (w a v c y : Ptr) → Cells → Type 0
DropsAfter m l w a v c y xs =
    (m' : Memory) × (l' : ListHandle) × (remove_list_item l w m ≡ ok ((true, l'), m'))
    × Seg m'.nodes null l'.head ((a, v) ∷ (c, y) ∷ xs)
    × ((fresh value : Ptr) (n : ℕ)
        → fresh ≢ null
        → m'.nodes fresh ≡ none
        → Readable m' value n
        → (m'' : Memory) × (l'' : ListHandle) × (push_list_item fresh l' value n m' ≡ ok (l'', m''))
          × Seg m''.nodes null l''.head ((a, v) ∷ (fresh, value) ∷ [])
          × (l''.size ≡ length xs + 3))

-- After remove_list_item has taken the first of two or more nodes off a well-formed list, the chain
-- is the rest of the list, and every push_list_item of a readable value with memory from malloc is
-- a fault.
pub push-remove_head :
    (m : Memory) (l : ListHandle) (a v b w : Ptr) (xs : Cells)
    → IsList m.nodes l ((a, v) ∷ (b, w) ∷ xs)
    → FaultsAfter m l v ((b, w) ∷ xs)
push-remove_head m l a v b w xs is =
    let first = beq_refl v in
    let (m', l', run, (chain, tail, size, same, bytes)) =
      remove-erase m l v ((a, v) ∷ (b, w) ∷ xs) (IsList-IsChain is) (rw first refl) in
    let chain' : Seg m'.nodes null l'.head ((b, w) ∷ xs) = rw first at chain in
    let tail' : l'.tail ≡ null = rw first at tail in
    (
      m',
      l',
      run,
      chain',
      λ fresh value n ne readable.
          push-no_tail m' l' fresh value n ne readable (λ z. chain'.2 (sym chain'.1 ∙ z)) tail',
    )

push-relinks :
    (m : Memory) (l : ListHandle) (fresh value : Ptr) (n : ℕ) (a v q : Ptr)
    → fresh ≢ null
    → Readable m value n
    → l.head ≢ null
    → l.tail ≡ a
    → a ≢ null
    → m.nodes a ≡ some (node v q)
    → fresh ≢ a
    → push_list_item fresh l value n m
      ≡ ok (
        record { size = l.size + 1; head = l.head; tail = fresh },
        put_node a (some (node v fresh)) (put_node fresh (some (node value null)) m),
      )
unfolding push_list_item create
push-relinks m l fresh value n a v q ne readable hne tail ane at apart =
    let created = put_node fresh (some (node value null)) m in
    let copied = copy_bytes_self n 0 value created (λ i lt. readable i (omega arith)) in
    let kept : created.nodes a ≡ some (node v q) = ground arith in
    rw
      (
        beq_of_ne fresh null ne,
        copied,
        beq_of_ne l.head null hne,
        tail,
        set_next-ok created ane kept fresh,
      )
      refl

-- After remove_list_item has taken the second of three or more nodes off a well-formed list whose
-- first value differs, every push_list_item of a readable value at an unused address leaves a chain
-- of the first and the new node alone, while size counts the nodes that were dropped.
pub push-remove_second :
    (m : Memory) (l : ListHandle) (a v b w c y : Ptr) (xs : Cells)
    → IsList m.nodes l ((a, v) ∷ (b, w) ∷ (c, y) ∷ xs)
    → v ≢ w
    → DropsAfter m l w a v c y xs
push-remove_second m l a v b w c y xs is ne =
    let skip = beq_of_ne v w ne in
    let here = beq_refl w in
    let (m', l', run, (chain, tail, size, same, bytes)) =
      remove-erase m l w ((a, v) ∷ (b, w) ∷ (c, y) ∷ xs) (IsList-IsChain is)
        (rw (skip, here) refl) in
    let chain' : Seg m'.nodes null l'.head ((a, v) ∷ (c, y) ∷ xs) = rw (skip, here) at chain in
    let tail' : l'.tail ≡ a = rw (skip, here) at tail in
    let size' : l'.size ≡ suc (suc (length xs)) = rw (skip, here) at size in
    let (q, e, ane, at, out, rest) = chain' in
    (
      m',
      l',
      run,
      chain',
      λ fresh value n fne unused readable.
          let apart : fresh ≢ a = λ z. cc in
          let after =
            put_node a (some (node v fresh)) (put_node fresh (some (node value null)) m') in
          (
            after,
            record { size = l'.size + 1; head = l'.head; tail = fresh },
            push-relinks m' l' fresh value n a v q fne readable (λ z. ane (sym e ∙ z)) tail' ane at
                apart,
            (
              fresh,
              e,
              ane,
              ground arith,
              ground arith,
              (null, refl, fne, ground arith, refl, refl),
            ),
            omega arith,
          ),
    )
