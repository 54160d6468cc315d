-- ===== src/Store/List/Chain.antt =====
-- What the nodes of a list stand for: the addresses and values along the `next` pointers.
use mathlib.Core.Path.{fun_ext}
use legacy_point_monitor.Common.{
  ℕ, zero, suc, ◌+◌, ◌<◌, ◌≡◌, ◌≢◌, refl, Bool, true, false, ◌||◌, Option, none, some, List, [],
  ◌∷◌, ◌++◌, ◌==◌, arith, length,
}
use legacy_point_monitor.Common.Outcome.{ok}
use legacy_point_monitor.Store.Memory.{
  Ptr, null, ListNode, node, Nodes, Memory, update, load_byte, store_byte,
}
use legacy_point_monitor.Store.List.{ListHandle, copy_bytes}

-- Address and value of each node, in order.
abbrev pub Cells : Type 0
Cells = List (Ptr × Ptr)

abbrev pub has : Ptr → Cells → Bool
has p [] = false
has p ((a, _) ∷ xs) = (p == a) || has p xs

-- The address of the last node, `d` if there is none.
abbrev pub last_or : Ptr → Cells → Ptr
last_or d [] = d
last_or d ((a, _) ∷ xs) = last_or a xs

-- From `p` the `next` pointers lead through the distinct nodes `xs` to `stop`.
abbrev pub Seg : Nodes → Ptr → Ptr → Cells → Type 0
Seg h stop p [] = p ≡ stop
Seg h stop p ((a, v) ∷ xs) =
    (q : Ptr) × (p ≡ a)
    × (a ≢ null)
    × (h a ≡ some (node v q))
    × (has a xs ≡ false)
    × Seg h stop q xs

abbrev pub SameOutside : Cells → Nodes → Nodes → Type 0
SameOutside xs h g = (a : Ptr) → has a xs ≡ false → g a ≡ h a

-- A well-formed list: its chain ends at NULL, `tail` is its last node, and `size` counts it.
pub record IsList (h : Nodes) (l : ListHandle) (xs : Cells) : Type 0 where
  pub chain : Seg h null l.head xs
  pub tail : l.tail ≡ last_or null xs
  pub size : l.size ≡ length xs

-- The chain and the count are right, whatever `tail` is: all that walks the list needs no more.
pub record IsChain (h : Nodes) (l : ListHandle) (xs : Cells) : Type 0 where
  pub chain : Seg h null l.head xs
  pub size : l.size ≡ length xs

pub IsList-IsChain : {h : Nodes} {l : ListHandle} {xs : Cells} → IsList h l xs → IsChain h l xs
IsList-IsChain is = record { chain = is.chain; size = is.size }

pub Seg-frame :
    (h g : Nodes) (stop p : Ptr) (xs : Cells)
    → ((a : Ptr) → has a xs ≡ true → g a ≡ h a)
    → Seg h stop p xs
    → Seg g stop p xs
Seg-frame h g stop p [] same s = s
Seg-frame h g stop p ((a, v) ∷ xs) same (q, e, ne, at, out, s) = (
  q,
  e,
  ne,
  ground (arith, same a),
  out,
  Seg-frame h g stop q xs (λ b i. ground (arith, same b)) s,
)

pub Seg-update :
    (h : Nodes) (stop p : Ptr) (xs : Cells) (b : Ptr) (c : Option ListNode)
    → has b xs ≡ false
    → Seg h stop p xs
    → Seg (update h b c) stop p xs
Seg-update h stop p xs b c out s = Seg-frame h (update h b c) stop p xs (λ a i. ground arith) s

pub has-append : (p : Ptr) (xs ys : Cells) → has p (xs ++ ys) ≡ (has p xs || has p ys)
has-append p [] ys = refl
has-append p ((a, v) ∷ xs) ys = ground (arith, has-append p xs ys)

pub has-last_or : (a v : Ptr) (xs : Cells) → has (last_or a xs) ((a, v) ∷ xs) ≡ true
has-last_or a v [] = ground arith
has-last_or a v ((b, w) ∷ xs) = ground (arith, has-last_or b w xs)

pub last_or-append : (d : Ptr) (xs : Cells) (a v : Ptr) → last_or d (xs ++ (a, v) ∷ []) ≡ a
last_or-append d [] a v = refl
last_or-append d ((b, w) ∷ xs) a v = last_or-append b xs a v

-- The nodes of a chain that ends at NULL are in use.
pub not-has_of_none :
    (h : Nodes) (p : Ptr) (xs : Cells) (b : Ptr) → h b ≡ none → Seg h null p xs → has b xs ≡ false
not-has_of_none h p [] b unused s = refl
not-has_of_none h p ((a, v) ∷ xs) b unused (q, e, ne, at, out, s) =
    ground (arith, not-has_of_none h q xs b unused s)

-- The last node of a chain ends at NULL.
pub last-node :
    (h : Nodes) (p a v : Ptr) (xs : Cells)
    → Seg h null p ((a, v) ∷ xs)
    → (w : Ptr) × (h (last_or a xs) ≡ some (node w null)) × (last_or a xs ≢ null)
last-node h p a v [] (q, e, ne, at, out, s) = (v, ground arith, ne)
last-node h p a v ((b, w) ∷ xs) (q, e, ne, at, out, s) = last-node h q b w xs s

-- Linking an unused node `c` behind the last node appends its cell.
pub Seg-link :
    (h : Nodes) (p a v : Ptr) (xs : Cells) (c u w : Ptr)
    → Seg h null p ((a, v) ∷ xs)
    → c ≢ null
    → has c ((a, v) ∷ xs) ≡ false
    → h c ≡ some (node u null)
    → h (last_or a xs) ≡ some (node w null)
    → Seg (update h (last_or a xs) (some (node w c))) null p ((a, v) ∷ xs ++ (c, u) ∷ [])
Seg-link h p a v [] c u w (q, e, ne, at, out, s) cne cout fresh end =
    (c, e, ne, ground arith, ground arith, (null, refl, cne, ground arith, refl, refl))
Seg-link h p a v ((b, x) ∷ xs) c u w (q, e, ne, at, out, s) cne cout fresh end = (
  q,
  e,
  ne,
  ground (arith, has-last_or b x xs),
  ground (arith, has-append a ((b, x) ∷ xs) ((c, u) ∷ [])),
  Seg-link h q b x xs c u w s cne (ground arith) fresh end,
)

update_same {ℓ} : {A : Type ℓ} (f : Ptr → A) (p : Ptr) (c : A) → f p ≡ c → update f p c ≡ f
update_same f p c e = fun_ext (λ a. ground arith)

-- The byte copy of push_list_item writes back what it reads: it changes nothing.
pub copy_bytes_self :
    (n idx : ℕ) (p : Ptr) (m : Memory)
    → ((i : ℕ) → i < idx + n → (b : ℕ) × (m.bytes (p + i) ≡ some b))
    → copy_bytes n idx p p m ≡ ok (tt, m)
unfolding copy_bytes load_byte store_byte
copy_bytes_self zero idx p m readable = refl
copy_bytes_self (suc n) idx p m readable =
    let (b, here) = readable idx (omega arith) in
    rw (load_byte, here)
      (rw (store_byte, here)
        (rw (update_same m.bytes (p + idx) (some b) here)
          (copy_bytes_self n (idx + 1) p m (λ i lt. readable i (omega arith)))))
