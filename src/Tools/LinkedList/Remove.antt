-- ===== src/Tools/LinkedList/Remove.antt =====
-- list_remove and list_remove_first of source/kernel/tools/list.c, on proper lists.
use start.Base.{
  ◌≡◌, ◌≢◌, refl, sym, ap, subst, ◌∙◌, arith, false, List, [], ◌∷◌, ◌++◌, Bool-cases, inl, inr,
  if◌then◌else◌, ◌==◌, Ptr, null,
}
use start.Tools.LinkedList.{
  Node, Nodes, LinkedList, set_pre, set_next, close_left, close_right, list_remove,
  list_remove_first,
}
use start.Tools.LinkedList.Insert.{Leaves}
use start.Tools.LinkedList.Links.{
  has, ◌∈◌, ◌∉◌, head_or, last_or, Links, IsList, Frame, length-append, last_or-append, has-append,
  Links-frame, Links-append, Links-split, Links-ne_null, Links-set_next, Links-set_pre, ne_of_mem,
  set_next_other, set_pre_other, last_or-mem,
}

-- The neighbours of a node of the list.
record Around (h : Nodes) (ys : List Ptr) (n : Ptr) (zs : List Ptr) : Type 0 where
  nz : n ≢ null
  pre : (h n).pre ≡ last_or null ys
  next : (h n).next ≡ head_or null zs
  left : Links h null ys n
  right : Links h n zs null
  out_left : n ∉ ys
  out_right : n ∉ zs
  apart : (a : Ptr) → a ∈ ys → a ∉ zs

Links-Around :
    (h : Nodes) (ys : List Ptr) (n : Ptr) (zs : List Ptr)
    → Links h null (ys ++ n ∷ zs) null
    → Around h ys n zs
Links-Around h ys n zs l =
    let (left, (nz, pre, next, out, right), apart) = Links-split h null ys (n ∷ zs) null l in
    let elsewhere : n ∉ ys = elim (Bool-cases (has n ys)) [
      | inl i ↦ absurd (ne_of_mem n n (n ∷ zs) (apart n i) (ground arith) refl)
      | inr o ↦ o
    ] in
    record {
      nz = nz;
      pre = pre;
      next = next;
      left = left;
      right = right;
      out_left = elsewhere;
      out_right = out;
      apart = λ a i. ground (arith, apart a i);
    }

-- Each of the two writes closes the gap on its side, and writes there only.
close_left-null : (h : Nodes) (n : Ptr) → (h n).pre ≡ null → close_left h n ≡ h
unfolding close_left
close_left-null h n e = rw e

close_left_some :
    (h : Nodes) (n p : Ptr) → (h n).pre ≡ p → p ≢ null → close_left h n ≡ set_next h p (h n).next
unfolding close_left
close_left_some h n p e nz = let t : ((h n).pre == null) ≡ false = ground arith in rw (t, e)

close_right-null : (h : Nodes) (n : Ptr) → (h n).next ≡ null → close_right h n ≡ h
unfolding close_right
close_right-null h n e = rw e

close_right_some :
    (h : Nodes) (n p : Ptr) → (h n).next ≡ p → p ≢ null → close_right h n ≡ set_pre h p (h n).pre
unfolding close_right
close_right_some h n p e nz = let t : ((h n).next == null) ≡ false = ground arith in rw (t, e)

close_left-Links :
    (h : Nodes) (n : Ptr) (ys : List Ptr)
    → (h n).pre ≡ last_or null ys
    → Links h null ys n
    → Links (close_left h n) null ys (h n).next × Frame ys h (close_left h n)
close_left-Links h n [] pre l = (tt, λ a i. rw (close_left-null h n pre))
close_left-Links h n (y ∷ ys) pre l =
    let some_pre = Links-ne_null h null (y ∷ ys) n (last_or y ys) l (last_or-mem y ys) in
    subst (λ (g : Nodes). Links g null (y ∷ ys) (h n).next × Frame (y ∷ ys) h g)
      (sym (close_left_some h n (last_or y ys) pre some_pre))
      (
        Links-set_next h null y ys n (h n).next l,
        λ a i. set_next_other h a _ _ (ne_of_mem a _ (y ∷ ys) i (last_or-mem y ys)),
      )

close_right-Links :
    (h : Nodes) (n : Ptr) (zs : List Ptr)
    → (h n).next ≡ head_or null zs
    → Links h n zs null
    → Links (close_right h n) (h n).pre zs null × Frame zs h (close_right h n)
close_right-Links h n [] next l = (tt, λ a i. rw (close_right-null h n next))
close_right-Links h n (z ∷ zs) next l =
    subst (λ (g : Nodes). Links g (h n).pre (z ∷ zs) null × Frame (z ∷ zs) h g)
      (sym (close_right_some h n z next l.0))
      (
        Links-set_pre h n (h n).pre z zs null l,
        λ a i. set_pre_other h a _ _ (ne_of_mem a z (z ∷ zs) i (ground arith)),
      )

-- A node of one of two lists that have none in common is not in the other.
pub apart_sym : (ys zs : List Ptr) → ((a : Ptr) → a ∈ ys → a ∉ zs) → (a : Ptr) → a ∈ zs → a ∉ ys
apart_sym ys zs apart a i = elim (Bool-cases (has a ys)) [
  | inl j ↦ absurd (ne_of_mem a a zs (apart a j) i refl)
  | inr o ↦ o
]

abbrev closed : Nodes → Ptr → Nodes
closed h n = close_right (close_left h n) n

abbrev unlink : Nodes → Ptr → Nodes
unlink h n = set_pre (set_next (closed h n) n null) n null

unlink-kept : (h : Nodes) (n a : Ptr) → a ≢ n → unlink h n a ≡ closed h n a
unlink-kept h n a ne = ground arith

module _ (h : Nodes) (ys : List Ptr) (n : Ptr) (zs : List Ptr) (at : Around h ys n zs) where
  left_closed : Links (close_left h n) null ys (h n).next × Frame ys h (close_left h n)
  left_closed = close_left-Links h n ys at.pre at.left

  node_kept : close_left h n n ≡ h n
  node_kept = left_closed.1 n at.out_left

  right_kept : Links (close_left h n) n zs null
  right_kept =
      Links-frame h _ n zs null (λ a i. left_closed.1 a (apart_sym ys zs at.apart a i)) at.right

  right_closed : Links (closed h n) (h n).pre zs null × Frame zs (close_left h n) (closed h n)
  right_closed =
      let (l, f) =
        close_right-Links (close_left h n) n zs (ap Node.next node_kept ∙ at.next) right_kept in
      (subst (λ (p : Node). Links (closed h n) p.pre zs null) node_kept l, f)

  closed-Links : Links (closed h n) null (ys ++ zs) null
  closed-Links =
      Links-append (closed h n) null ys zs null
        (Links-frame (close_left h n) (closed h n) null ys (head_or null zs)
          (λ a i. right_closed.1 a (at.apart a i)) (rw at.next at left_closed.0))
        (rw at.pre at right_closed.0) at.apart

  not_here : (a : Ptr) → a ∈ ys ++ zs → a ≢ n
  not_here a i e =
      ne_of_mem n a (ys ++ zs) (ground (arith, at.out_left, at.out_right, has-append n ys zs)) i
        (sym e)

  unlink-Links : Links (unlink h n) null (ys ++ zs) null
  unlink-Links =
      Links-frame (closed h n) (unlink h n) null (ys ++ zs) null
        (λ a i. unlink-kept h n a (not_here a i)) closed-Links

  unlink-Frame : Frame (ys ++ n ∷ zs) h (unlink h n)
  unlink-Frame a i =
      let (ly, lz) = outside a i in
      unlink-kept h n a (ground (arith, has-append a ys (n ∷ zs)))
      ∙ right_closed.1 a lz
      ∙ left_closed.1 a ly
    where
      outside : (a : Ptr) → a ∉ ys ++ n ∷ zs → (a ∉ ys) × (a ∉ zs)
      outside a i = ground (arith, has-append a ys (n ∷ zs))

ends-first :
    (ys : List Ptr) (n : Ptr) (zs : List Ptr) (first next : Ptr)
    → first ≡ head_or null (ys ++ n ∷ zs)
    → next ≡ head_or null zs
    → n ∉ ys
    → (if n == first then next else first) ≡ head_or null (ys ++ zs)
ends-first [] n zs first next e f out = ground arith
ends-first (y ∷ ys) n zs first next e f out = ground arith

ends-last :
    (ys : List Ptr) (n : Ptr) (zs : List Ptr) (last pre : Ptr)
    → last ≡ last_or null (ys ++ n ∷ zs)
    → pre ≡ last_or null ys
    → n ∉ zs
    → (if n == last then pre else last) ≡ last_or null (ys ++ zs)
ends-last ys n [] last pre e f out =
    ground (arith, last_or-append null ys (n ∷ []), last_or-append null ys [])
ends-last ys n (z ∷ zs) last pre e f out =
    let ne = ne_of_mem n (last_or z zs) (z ∷ zs) out (last_or-mem z zs) in
    ground (arith, ne, last_or-append null ys (n ∷ z ∷ zs), last_or-append null ys (z ∷ zs))

-- list_remove of any node of a proper list leaves the proper list of the other nodes in their
-- order, and writes no node outside the list.
pub remove-IsList :
    (h : Nodes) (l : LinkedList) (ys : List Ptr) (n : Ptr) (zs : List Ptr)
    → IsList h l (ys ++ n ∷ zs)
    → Leaves (ys ++ zs) (ys ++ n ∷ zs) h (list_remove h l n)
unfolding list_remove
remove-IsList h l ys n zs is =
    let at = Links-Around h ys n zs is.links in
    (
      record {
        links = unlink-Links h ys n zs at;
        first = ends-first ys n zs l.first (h n).next is.first at.next at.out_left;
        last = ends-last ys n zs l.last (h n).pre is.last at.pre at.out_right;
        count = ground (arith, length-append ys (n ∷ zs), length-append ys zs);
        short = omega (arith, length-append ys (n ∷ zs), length-append ys zs);
      },
      unlink-Frame h ys n zs at,
    )

-- list_remove_first of a proper list that is not empty returns its first node and leaves the
-- proper list of the others, and writes no node outside the list.
pub remove_first-IsList :
    (h : Nodes) (l : LinkedList) (n : Ptr) (zs : List Ptr)
    → IsList h l (n ∷ zs)
    → let (h', l', got) = list_remove_first h l in (got ≡ n) × Leaves zs (n ∷ zs) h (h', l')
unfolding list_remove_first
remove_first-IsList h l n [] is =
    let some_first : (l.count == 0) ≡ false = ground arith in
    rw (some_first, is.first, is.links.2)
      (
        refl,
        (
          record {
            links = tt;
            first = refl;
            last = refl;
            count = ground arith;
            short = omega arith;
          },
          λ a i. ground arith,
        ),
      )
remove_first-IsList h l n (z ∷ zs) is =
    let some_first : (l.count == 0) ≡ false = ground arith in
    let some_next : (z == null) ≡ false = ground (arith, is.links.4.0) in
    rw (some_first, is.first, is.links.2, some_next)
      (
        refl,
        (
          record {
            links =
                Links-frame g _ null (z ∷ zs) null
                  (λ a i. ground (arith, ne_of_mem n a (z ∷ zs) is.links.3 i)) relinked;
            first = refl;
            last = is.last;
            count = ground arith;
            short = omega arith;
          },
          λ a i. ground arith,
        ),
      )
  where
    g : Nodes
    g = set_pre h z null

    relinked : Links g null (z ∷ zs) null
    relinked = Links-set_pre h n null z zs null is.links.4

-- And of an empty list nothing.
pub remove_first_nil :
    (h : Nodes) (l : LinkedList) → IsList h l [] → list_remove_first h l ≡ (h, l, null)
unfolding list_remove_first
remove_first_nil h l is = ground arith
