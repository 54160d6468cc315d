-- ===== src/Store/Memory.antt =====
-- The memory that src/lib/store works on: list nodes and bytes at addresses. An access through NULL, or
-- at an address that holds no such object, is a fault.
use legacy_point_monitor.Common.{ℕ, ◌≡◌, ◌≢◌, Option, none, some, ◌==◌, if◌then◌else◌, beq_of_ne}
use legacy_point_monitor.Common.Outcome.{Outcome, ok, fault, ◌>>=◌ as and_then}

abbrev pub Ptr : Type 0
Ptr = ℕ

abbrev pub null : Ptr
null = 0

-- include/list.h, `ListNode`: the value is a pointer.
pub record ListNode : Type 0 where
  pub value : Ptr
  pub next : Ptr

abbrev pub node : Ptr → Ptr → ListNode
node v q = record { value = v; next = q }

abbrev pub Nodes : Type 0
Nodes = Ptr → Option ListNode

pub record Memory : Type 0 where
  pub nodes : Nodes
  pub bytes : Ptr → Option ℕ

abbrev pub update {ℓ} : {A : Type ℓ} → (Ptr → A) → Ptr → A → Ptr → A
update f p c a = if a == p then c else f a

abbrev pub Cmd : Type 0 → Type 0
Cmd A = Memory → Outcome (A × Memory)

abbrev pub pure : {A : Type 0} → A → Cmd A
pure a m = ok (a, m)

infixl 5 ◌>>=◌ ◌>>◌
abbrev pub ◌>>=◌ : {A B : Type 0} → Cmd A → (A → Cmd B) → Cmd B
◌>>=◌ c k m = and_then (c m) (λ r. k r.0 r.1)

abbrev pub ◌>>◌ : {A B : Type 0} → Cmd A → Cmd B → Cmd B
c >> d = c >>= λ _. d

-- `*p` at a node.
unfoldable pub load : Ptr → Cmd ListNode
load p m = if p == null then fault else elim (m.nodes p) [ none ↦ fault | some n ↦ ok (n, m) ]

abbrev pub put_node : Ptr → Option ListNode → Memory → Memory
put_node p c m = record m { nodes = update m.nodes p c }

-- `malloc` returned `p`, and the fields are written: a fault if it returned NULL.
unfoldable pub create : Ptr → ListNode → Cmd (Unit {0})
create p n m = if p == null then fault else ok (tt, put_node p (some n) m)

-- `p->next = q`
unfoldable pub set_next : Ptr → Ptr → Cmd (Unit {0})
unfolding load
set_next p q = do n ← load p; λ m. ok (tt, put_node p (some (node n.value q)) m)

-- `free(p)`; freeing NULL does nothing.
unfoldable pub free : Ptr → Cmd (Unit {0})
unfolding load
free p m = if p == null then ok (tt, m) else (do load p; λ g. ok (tt, put_node p none g)) m

unfoldable pub load_byte : Ptr → Cmd ℕ
load_byte p m = elim (m.bytes p) [ none ↦ fault | some b ↦ ok (b, m) ]

unfoldable pub store_byte : Ptr → ℕ → Cmd (Unit {0})
store_byte p b m = elim (m.bytes p) [
  | none ↦ fault
  | some _ ↦ ok (tt, record m { bytes = update m.bytes p (some b) })
]

module _ (m : Memory) {p : Ptr} (ne : p ≢ null) {n : ListNode} (holds : m.nodes p ≡ some n) where
  pub load-ok : load p m ≡ ok (n, m)
  unfolding load
  load-ok = rw (beq_of_ne p null ne, holds)

  pub set_next-ok : (q : Ptr) → set_next p q m ≡ ok (tt, put_node p (some (node n.value q)) m)
  unfolding set_next
  set_next-ok q = rw (beq_of_ne p null ne, holds)

  pub free-ok : free p m ≡ ok (tt, put_node p none m)
  unfolding free
  free-ok = rw (beq_of_ne p null ne, holds)
