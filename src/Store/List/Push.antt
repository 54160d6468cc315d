-- ===== src/Store/List/Push.antt =====
-- push_list_item appends one node to a well-formed list.
use legacy_point_monitor.Common.{
  ℕ, ◌+◌, ◌<◌, ◌≡◌, ◌≢◌, refl, sym, ◌∙◌, none, some, [], ◌∷◌, ◌++◌, arith, length-append, beq_of_ne,
}
use legacy_point_monitor.Common.Outcome.{ok}
use legacy_point_monitor.Store.Memory.{Ptr, null, node, Memory, put_node, create, set_next-ok}
use legacy_point_monitor.Store.List.{ListHandle, copy_bytes, push_list_item}
use legacy_point_monitor.Store.List.Chain.{
  Cells, last_or, SameOutside, IsList, Seg-update, has-append, has-last_or, last_or-append,
  not-has_of_none, last-node, Seg-link, copy_bytes_self,
}

-- The bytes that the pointer leads to, which push_list_item reads and writes.
abbrev pub Readable : Memory → Ptr → ℕ → Type 0
Readable m p n = (i : ℕ) → i < n → (b : ℕ) × (m.bytes (p + i) ≡ some b)

abbrev pub Pushed : Memory → Cells → Memory → ListHandle → Type 0
Pushed m xs m' l' = IsList m'.nodes l' xs × SameOutside xs m.nodes m'.nodes × (m'.bytes ≡ m.bytes)

module _ (m : Memory) (l : ListHandle) (fresh value : Ptr) (n : ℕ) (ne : fresh ≢ null)
    (unused : m.nodes fresh ≡ none) (readable : Readable m value n) where
  abbrev created : Memory
  created = put_node fresh (some (node value null)) m

  copied : copy_bytes n 0 value value created ≡ ok (tt, created)
  copied = copy_bytes_self n 0 value created (λ i lt. readable i (omega arith))

  push-cases :
      (xs : Cells)
      → IsList m.nodes l xs
      → (m' : Memory) × (l' : ListHandle) × (push_list_item fresh l value n m ≡ ok (l', m'))
        × Pushed m (xs ++ (fresh, value) ∷ []) m' l'
  unfolding push_list_item create
  push-cases [] is = (
    created,
    record { size = l.size + 1; head = fresh; tail = fresh },
    rw (beq_of_ne fresh null ne, copied, is.chain) refl,
    (
      record {
        chain = (null, refl, ne, ground arith, refl, refl);
        tail = refl;
        size = omega (arith, is.size);
      },
      ground arith,
      refl,
    ),
  )
  push-cases ((a, v) ∷ xs) is =
      let (q, e, ane, at, out, s) = is.chain in
      let apart = not-has_of_none m.nodes l.head ((a, v) ∷ xs) fresh unused is.chain in
      let kept =
        Seg-update m.nodes null l.head ((a, v) ∷ xs) fresh (some (node value null)) apart
          is.chain in
      let (w, end, last_ne) = last-node created.nodes l.head a v xs kept in
      let linked = set_next-ok created last_ne end fresh in
      (
        put_node (last_or a xs) (some (node w fresh)) created,
        record { size = l.size + 1; head = l.head; tail = fresh },
        rw
            (
              beq_of_ne fresh null ne,
              copied,
              beq_of_ne l.head null (λ z. ane (sym e ∙ z)),
              is.tail,
              linked,
            )
            refl,
        (
          record {
            chain =
                Seg-link created.nodes l.head a v xs fresh value w kept ne apart (ground arith) end;
            tail = sym (last_or-append null ((a, v) ∷ xs) fresh value);
            size = omega (arith, is.size, length-append ((a, v) ∷ xs) ((fresh, value) ∷ []));
          },
          λ b o.
              ground (arith, has-append b ((a, v) ∷ xs) ((fresh, value) ∷ []), has-last_or a v xs),
          refl,
        ),
      )

abbrev pub Appends : Memory → ListHandle → Cells → Ptr → Ptr → ℕ → Type 0
Appends m l xs fresh value n =
    (m' : Memory) × (l' : ListHandle) × (push_list_item fresh l value n m ≡ ok (l', m'))
    × Pushed m (xs ++ (fresh, value) ∷ []) m' l'

-- push_list_item on a well-formed list, with an unused address from malloc and bytes to copy behind
-- the value, returns; the list is well formed with the value as its last item, and nothing outside
-- its nodes changes.
pub push-append :
    (m : Memory) (l : ListHandle) (xs : Cells) (fresh value : Ptr) (n : ℕ)
    → IsList m.nodes l xs
    → fresh ≢ null
    → m.nodes fresh ≡ none
    → Readable m value n
    → Appends m l xs fresh value n
push-append m l xs fresh value n is ne unused readable =
    push-cases m l fresh value n ne unused readable xs is
