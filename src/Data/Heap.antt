-- ===== src/Data/Heap.antt =====
-- Objects that several holders share by pointer. An address that was never allocated is never read.
use wireguard_babeld_igp.Base.{ℕ, suc, ite, nat_key, ◌=?◌}

abbrev pub Ptr : Type 0
Ptr = ℕ

pub record Heap (A : Type 0) : Type 0 where
  pub cell : Ptr → A
  pub next : Ptr

module _ {A : Type 0} where
  -- p.field = v, with the whole object given anew
  abbrev pub write : Heap A → Ptr → A → Heap A
  write h p a = record h { cell = λ q. ite (p =? q) a (h.cell q) }

  -- &A{...}
  abbrev pub alloc : Heap A → A → Ptr × Heap A
  alloc h a = (h.next, record (write h h.next a) { next = suc h.next })
