-- ===== src/Tools/LinkedList/Insert.antt =====
-- list_insert_first and list_insert_last of source/kernel/tools/list.c, on proper lists.
use start.Base.{
  ◌+◌, ◌<◌, ◌^◌, ◌≡◌, ◌≢◌, refl, sym, arith, true, false, List, [], ◌∷◌, ◌++◌, ◌==◌, Ptr, null,
}
use start.Tools.LinkedList.{
  Nodes, LinkedList, set_pre, set_next, list_insert_first, list_insert_last, list_init,
}
use start.Tools.LinkedList.Links.{
  length, ◌∈◌, ◌∉◌, last_or, Links, IsList, Frame, length-append, last_or-append, Links-frame,
  Links-append, Links-set_next, Links-set_pre, ne_of_mem, set_next_other, last_or-mem,
}

pub list_init-IsList : (h : Nodes) → IsList h list_init []
unfolding list_init
list_init-IsList h = record {
  links = tt;
  first = refl;
  last = refl;
  count = refl;
  short = omega arith;
}

-- What an operation leaves: a proper list of `ys`, and every node but those of `touched` as it was.
abbrev pub Leaves : List Ptr → List Ptr → Nodes → Nodes × LinkedList → Type 0
Leaves ys touched h (h', l') = IsList h' l' ys × Frame touched h h'

module _ (h : Nodes) (l : LinkedList) (n : Ptr) (nz : n ≢ null) where
  -- list_insert_last of a node that is not in a proper list makes it the last of the list, and
  -- writes no node but those of the list and the new one.
  pub insert_last-IsList :
      (xs : List Ptr)
      → IsList h l xs
      → n ∉ xs
      → length xs + 1 < 2 ^ 31
      → Leaves (xs ++ n ∷ []) (n ∷ xs) h (list_insert_last h l n)
  unfolding list_insert_last
  insert_last-IsList [] is out short =
      let e : (l.count == 0) ≡ true = ground arith in
      rw e (
        record {
          links = (nz, ground arith, ground arith, refl, tt);
          first = refl;
          last = refl;
          count = ground arith;
          short = omega arith;
        },
        λ a i. ground arith,
      )
  insert_last-IsList (x ∷ xs) is out short =
      let e : (l.count == 0) ≡ false = ground arith in
      rw (e, is.last)
        (
          record {
            links = appended;
            first = is.first;
            last = rw (last_or-append x xs (n ∷ []));
            count = ground (arith, length-append xs (n ∷ []));
            short = omega (arith, length-append xs (n ∷ []));
          },
          λ a i. frame a i,
        )
    where
      g : Nodes
      g = set_next (set_pre h n (last_or x xs)) n null

      apart : (a : Ptr) → a ∈ x ∷ xs → a ≢ n
      apart a i q = ne_of_mem n a (x ∷ xs) out i (sym q)

      new : n ≢ last_or x xs
      new = ne_of_mem n _ (x ∷ xs) out (last_or-mem x xs)

      appended : Links (set_next g (last_or x xs) n) null (x ∷ xs ++ n ∷ []) null
      appended =
          Links-append _ null (x ∷ xs) (n ∷ []) null
            (Links-set_next g null x xs null n
              (Links-frame h g null (x ∷ xs) null (λ a i. ground (arith, apart a i)) is.links))
            (
              nz,
              rw (set_next_other g n (last_or x xs) n new) (ground arith),
              rw (set_next_other g n (last_or x xs) n new) (ground arith),
              refl,
              tt,
            )
            (λ a i. ground (arith, apart a i))

      frame : Frame (n ∷ x ∷ xs) h (set_next g (last_or x xs) n)
      frame a i =
          rw
            (set_next_other g a (last_or x xs) n
              (ne_of_mem a _ (x ∷ xs) (ground arith) (last_or-mem x xs)))
            (ground arith)

  -- list_insert_first of a node that is not in a proper list makes it the first of the list, and
  -- writes no node but those of the list and the new one.
  pub insert_first-IsList :
      (xs : List Ptr)
      → IsList h l xs
      → n ∉ xs
      → length xs + 1 < 2 ^ 31
      → Leaves (n ∷ xs) (n ∷ xs) h (list_insert_first h l n)
  unfolding list_insert_first
  insert_first-IsList [] is out short =
      let e : (l.count == 0) ≡ true = ground arith in
      rw e (
        record {
          links = (nz, ground arith, ground arith, refl, tt);
          first = refl;
          last = refl;
          count = ground arith;
          short = omega arith;
        },
        λ a i. ground arith,
      )
  insert_first-IsList (x ∷ xs) is out short =
      let e : (l.count == 0) ≡ false = ground arith in
      rw (e, is.first)
        (
          record {
            links = (
              nz,
              ground arith,
              ground arith,
              out,
              Links-set_pre g null n x xs null
                  (Links-frame h g null (x ∷ xs) null (λ a i. ground (arith, apart a i)) is.links),
            );
            first = refl;
            last = is.last;
            count = ground arith;
            short = omega arith;
          },
          λ a i. ground arith,
        )
    where
      g : Nodes
      g = set_pre (set_next h n x) n null

      apart : (a : Ptr) → a ∈ x ∷ xs → a ≢ n
      apart a i q = ne_of_mem n a (x ∷ xs) out i (sym q)
