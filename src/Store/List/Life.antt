-- ===== src/Store/List/Life.antt =====
-- The life of a list: items are pushed onto a new list, it is walked, and it is destroyed.
use legacy_point_monitor.Common.{
  ℕ, ◌+◌, ◌≡◌, ◌≢◌, refl, sym, ap, ◌∙◌, true, false, none, [], ◌∷◌, ◌++◌, ◌==◌, arith, eq_of_beq,
  length, Bool-cases, inl, inr, if◌then◌else◌,
}
use mathlib.Core.List.{append_assoc, append-nil}
use mathlib.Core.Path.{subst}
use legacy_point_monitor.Common.Outcome.{ok, ◌>>=◌ as and_then}
use legacy_point_monitor.Store.Memory.{Ptr, null, Nodes, Memory, Cmd, pure, ◌>>=◌}
use legacy_point_monitor.Store.List.{
  ListHandle, new_list, push_list_item, iterate_list, destroy_list,
}
use legacy_point_monitor.Store.List.Chain.{
  Cells, has, SameOutside, IsList, has-append, not-has_of_none,
}
use legacy_point_monitor.Store.List.Push.{Readable, push-append}
use legacy_point_monitor.Store.List.Loops.{values, iterate-values, destroy-Without}

-- push_list_item for each value, with the address that malloc returns for its node.
pub push_all : Cells → ℕ → ListHandle → Cmd ListHandle
push_all [] n l = pure l
push_all ((fresh, value) ∷ cells) n l = do l ← push_list_item fresh l value n; push_all cells n l

-- malloc returns addresses that are not in use, and there are bytes behind the values.
abbrev pub AreFresh : Memory → ℕ → Cells → Type 0
AreFresh m n [] = Unit
AreFresh m n ((fresh, value) ∷ cells) =
    (fresh ≢ null)
    × (m.nodes fresh ≡ none)
    × Readable m value n
    × (has fresh cells ≡ false)
    × AreFresh m n cells

pub AreFresh-kept :
    (m m' : Memory) (n : ℕ) (cells : Cells)
    → ((b : Ptr) → has b cells ≡ true → m'.nodes b ≡ m.nodes b)
    → m'.bytes ≡ m.bytes
    → AreFresh m n cells
    → AreFresh m' n cells
AreFresh-kept m m' n [] same bytes fresh = fresh
AreFresh-kept m m' n ((a, v) ∷ cells) same bytes (ne, unused, readable, apart, rest) = (
  ne,
  same a (ground arith) ∙ unused,
  λ i lt. let (b, e) = readable i lt in (b, ap (λ (f : Ptr → _). f (v + i)) bytes ∙ e),
  apart,
  AreFresh-kept m m' n cells (λ b h. same b (ground arith)) bytes rest,
)

-- What the pushes come to: the cells are behind those that were there.
abbrev pub Builds : Memory → ListHandle → Cells → Cells → ℕ → Type 0
Builds m l xs cells n =
    (m' : Memory) × (l' : ListHandle) × (push_all cells n l m ≡ ok (l', m'))
    × IsList m'.nodes l' (xs ++ cells)
    × SameOutside (xs ++ cells) m.nodes m'.nodes

pub AreFresh-unused :
    (m : Memory) (n : ℕ) (cells : Cells) (b : Ptr)
    → AreFresh m n cells
    → has b cells ≡ true
    → m.nodes b ≡ none
AreFresh-unused m n [] b fresh h = cc
AreFresh-unused m n ((a, v) ∷ cells) b (ne, unused, readable, apart, rest) h =
    elim (Bool-cases (b == a)) [
      | inl same ↦ ap m.nodes (eq_of_beq b a same) ∙ unused
      | inr other ↦ AreFresh-unused m n cells b rest (ground arith)
    ]

pub has-apart :
    (a b : Ptr) (cells : Cells) → has a cells ≡ false → has b cells ≡ true → (b == a) ≡ false
has-apart a b cells out inside = elim (Bool-cases (b == a)) [
  | inl same ↦
      let both : true ≡ false = sym inside ∙ ap (λ c. has c cells) (eq_of_beq b a same) ∙ out in cc
  | inr other ↦ other
]

push_all-Builds :
    (m : Memory) (l : ListHandle) (xs cells : Cells) (n : ℕ)
    → IsList m.nodes l xs
    → AreFresh m n cells
    → Builds m l xs cells n
unfolding push_all
push_all-Builds m l xs [] n is fresh =
    (m, l, refl, subst (IsList m.nodes l) (sym (append-nil xs)) is, λ b o. refl)
push_all-Builds m l xs ((a, v) ∷ cells) n is (ne, unused, readable, apart, rest) =
    let (m1, l1, run, (is1, same, bytes)) = push-append m l xs a v n is ne unused readable in
    let untouched : (b : Ptr) → has b cells ≡ true → m1.nodes b ≡ m.nodes b = λ b h.
      let free =
        not-has_of_none m.nodes l.head xs b (AreFresh-unused m n cells b rest h) is.chain in
      same b (ground (arith, has-append b xs ((a, v) ∷ []), has-apart a b cells apart h)) in
    let (m2, l2, ran, is2, same2) =
      push_all-Builds m1 l1 (xs ++ (a, v) ∷ []) cells n is1
        (AreFresh-kept m m1 n cells untouched bytes rest) in
    let regroup = append_assoc xs ((a, v) ∷ []) cells in
    (
      m2,
      l2,
      ap (λ o. and_then o λ r. push_all cells n r.0 r.1) run ∙ ran,
      subst (IsList m2.nodes l2) regroup is2,
      λ b o.
          same2 b (ap (has b) regroup ∙ o)
          ∙ same b
              (ground (arith, has-append b xs ((a, v) ∷ cells), has-append b xs ((a, v) ∷ []))),
    )

-- What becomes of a list with these items: it is built and walked, its values are read in order, and
-- once it is destroyed the nodes are what they were at first.
abbrev pub Lives : Memory → Cells → ℕ → Type 0
Lives m cells n =
    (built gone : Memory) × (l : ListHandle) × (push_all cells n new_list m ≡ ok (l, built))
    × (l.size ≡ length cells)
    × (iterate_list l built ≡ ok (values cells, built))
    × (destroy_list l built ≡ ok (tt, gone))
    × ((a : Ptr) → gone.nodes a ≡ m.nodes a)

pub new-IsList : (h : Nodes) → IsList h new_list []
unfolding new_list
new-IsList h = record { chain = refl; tail = refl; size = refl }

-- Where malloc returns unused addresses and there are bytes behind the values, pushing any values
-- onto a new list returns a list of that size; iterate_list reads these values in their order, and
-- destroy_list leaves no node behind: the nodes are what they were before the first push.
pub life-Lives : (m : Memory) (cells : Cells) (n : ℕ) → AreFresh m n cells → Lives m cells n
life-Lives m cells n fresh =
    let (built, l, run, is, same) =
      push_all-Builds m new_list [] cells n (new-IsList m.nodes) fresh in
    let (g, destroyed, without) = destroy-Without built l cells is in
    (
      built,
      record built { nodes = g },
      l,
      run,
      is.size,
      iterate-values built l cells is,
      destroyed,
      λ a. without a ∙ restored built a (same a),
    )
  where
    restored :
        (built : Memory) (a : Ptr)
        → (has a cells ≡ false → built.nodes a ≡ m.nodes a)
        → (if has a cells then none else built.nodes a) ≡ m.nodes a
    restored built a same = elim (Bool-cases (has a cells)) [
      | inl inside ↦ rw inside (sym (AreFresh-unused m n cells a fresh inside))
      | inr outside ↦ rw outside (same outside)
    ]
