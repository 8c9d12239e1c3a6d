-- ===== src/Tools/LinkedList.antt =====
-- source/kernel/tools/list.c and source/kernel/include/tools/list.h: the intrusive doubly linked list.
-- The nodes lie in a heap, one at every address; a function that writes `*list` returns the new one.
-- Nothing faults at address 0: `Links` says where a list's pointers are null, and `Frame` that only
-- the list's nodes are written. A C `int` is its 32-bit pattern.
pub mod Links
pub mod Insert
pub mod Remove
use start.Base.{ℕ, ◌≡◌, Bool, true, false, not, if◌then◌else◌, ◌==◌, add32, sub32, Ptr, null}

-- `list_node_t`
pub record Node : Type 0 where
  pub pre : Ptr
  pub next : Ptr

abbrev pub Nodes : Type 0
Nodes = Ptr → Node

-- `list_t`
pub record LinkedList : Type 0 where
  pub first : Ptr
  pub last : Ptr
  pub count : ℕ

-- `p->pre = q` and `p->next = q`
abbrev pub set_pre : Nodes → Ptr → Ptr → Nodes
set_pre h p q a = if a == p then record { pre = q; next = (h p).next } else h a

abbrev pub set_next : Nodes → Ptr → Ptr → Nodes
set_next h p q a = if a == p then record { pre = (h p).pre; next = q } else h a

unfoldable pub list_node_init : Nodes → Ptr → Nodes
list_node_init h node = set_pre (set_next h node null) node null

unfoldable pub list_init : LinkedList
list_init = record { first = null; last = null; count = 0 }

unfoldable pub list_is_empty : LinkedList → Bool
list_is_empty l = l.count == 0

unfoldable pub list_count : LinkedList → ℕ
list_count l = l.count

unfoldable pub list_first : LinkedList → Ptr
list_first l = l.first

unfoldable pub list_insert_first : Nodes → LinkedList → Ptr → Nodes × LinkedList
unfolding list_is_empty
list_insert_first h l node =
    let h' = set_pre (set_next h node l.first) node null in
    if list_is_empty l
    then (h', record { first = node; last = node; count = add32 l.count 1 })
    else (set_pre h' l.first node, record { first = node; last = l.last; count = add32 l.count 1 })

unfoldable pub list_insert_last : Nodes → LinkedList → Ptr → Nodes × LinkedList
unfolding list_is_empty
list_insert_last h l node =
    let h' = set_next (set_pre h node l.last) node null in
    if list_is_empty l
    then (h', record { first = node; last = node; count = add32 l.count 1 })
    else (set_next h' l.last node, record { first = l.first; last = node; count = add32 l.count 1 })

-- Returns the removed node too, or null.
unfoldable pub list_remove_first : Nodes → LinkedList → Nodes × LinkedList × Ptr
unfolding list_is_empty
list_remove_first h l =
    let node = l.first in
    let rest = (h node).next in
    let h' = if rest == null then h else set_pre h rest null in
    if list_is_empty l then (h, l, null) else (
      set_next (set_pre h' node null) node null,
      record {
        first = rest;
        last = if rest == null then null else l.last;
        count = sub32 l.count 1;
      },
      node,
    )

-- The two conditional writes to the neighbours.
unfoldable pub close_left : Nodes → Ptr → Nodes
close_left h node = if (h node).pre == null then h else set_next h (h node).pre (h node).next

unfoldable pub close_right : Nodes → Ptr → Nodes
close_right h node = if (h node).next == null then h else set_pre h (h node).next (h node).pre

unfoldable pub list_remove : Nodes → LinkedList → Ptr → Nodes × LinkedList
unfolding close_left close_right
list_remove h l node = (
  set_pre (set_next (close_right (close_left h node) node) node null) node null,
  record {
    first = if node == l.first then (h node).next else l.first;
    last = if node == l.last then (h node).pre else l.last;
    count = sub32 l.count 1;
  },
)
