-- ===== src/Tools/LinkedList/Links.antt =====
-- What a list of source/kernel/tools/list.c stands for: the addresses of its nodes, in order.
use start.Base.{
  ℕ, suc, ◌+◌, ◌<◌, ◌^◌, ◌≡◌, ◌≢◌, refl, ap, arith, Bool, true, false, ◌||◌, List, [], ◌∷◌, ◌++◌,
  ◌==◌, Ptr, null,
}
use start.Tools.LinkedList.{Nodes, LinkedList, set_pre, set_next}

abbrev pub length {ℓ} : {A : Type ℓ} → List A → ℕ
length [] = 0
length (_ ∷ xs) = suc (length xs)

abbrev pub has : Ptr → List Ptr → Bool
has a [] = false
has a (x ∷ xs) = (a == x) || has a xs

infix 40 ◌∈◌ ◌∉◌
abbrev pub ◌∈◌ : Ptr → List Ptr → Type 0
a ∈ xs = has a xs ≡ true

abbrev pub ◌∉◌ : Ptr → List Ptr → Type 0
a ∉ xs = has a xs ≡ false

-- The first address, or what follows the empty list; the last one, or what precedes it.
abbrev pub head_or : Ptr → List Ptr → Ptr
head_or stop [] = stop
head_or stop (x ∷ xs) = x

abbrev pub last_or : Ptr → List Ptr → Ptr
last_or prev [] = prev
last_or prev (x ∷ xs) = last_or x xs

-- The nodes `xs` are distinct and linked both ways, behind `prev` and before `stop`.
abbrev pub Links : Nodes → Ptr → List Ptr → Ptr → Type 0
Links h prev [] stop = Unit {0}
Links h prev (p ∷ xs) stop =
    (p ≢ null) × ((h p).pre ≡ prev) × ((h p).next ≡ head_or stop xs) × (p ∉ xs) × Links h p xs stop

-- `l` is a proper list of the nodes `xs`.
pub record IsList (h : Nodes) (l : LinkedList) (xs : List Ptr) : Type 0 where
  pub links : Links h null xs null
  pub first : l.first ≡ head_or null xs
  pub last : l.last ≡ last_or null xs
  pub count : l.count ≡ length xs
  pub short : length xs < 2 ^ 31

-- `g` differs from `h` at the nodes `xs` at most.
abbrev pub Frame : List Ptr → Nodes → Nodes → Type 0
Frame xs h g = (a : Ptr) → a ∉ xs → g a ≡ h a

pub has-append : (a : Ptr) (xs ys : List Ptr) → has a (xs ++ ys) ≡ (has a xs || has a ys)
has-append a [] ys = refl
has-append a (x ∷ xs) ys = ground (arith, has-append a xs ys)

pub length-append {ℓ} : {A : Type ℓ} (xs ys : List A) → length (xs ++ ys) ≡ length xs + length ys
length-append [] ys = omega arith
length-append (x ∷ xs) ys = omega (arith, length-append xs ys)

pub last_or-append :
    (prev : Ptr) (xs ys : List Ptr) → last_or prev (xs ++ ys) ≡ last_or (last_or prev xs) ys
last_or-append prev [] ys = refl
last_or-append prev (x ∷ xs) ys = last_or-append x xs ys

pub head_or-append :
    (stop : Ptr) (xs ys : List Ptr) → head_or stop (xs ++ ys) ≡ head_or (head_or stop ys) xs
head_or-append stop [] ys = refl
head_or-append stop (x ∷ xs) ys = refl

pub last_or-mem : (p : Ptr) (xs : List Ptr) → last_or p xs ∈ p ∷ xs
last_or-mem p [] = ground arith
last_or-mem p (x ∷ xs) = ground (arith, last_or-mem x xs)

-- A chain is not touched by writes elsewhere.
pub Links-frame :
    (h g : Nodes) (prev : Ptr) (xs : List Ptr) (stop : Ptr)
    → ((a : Ptr) → a ∈ xs → g a ≡ h a)
    → Links h prev xs stop
    → Links g prev xs stop
Links-frame h g prev [] stop same l = tt
Links-frame h g prev (p ∷ xs) stop same (nz, pre, next, out, l) =
    let e = same p (ground arith) in
    (nz, rw e pre, rw e next, out, Links-frame h g p xs stop (λ a i. same a (ground arith)) l)

pub Links-ne_null :
    (h : Nodes) (prev : Ptr) (xs : List Ptr) (stop a : Ptr)
    → Links h prev xs stop
    → a ∈ xs
    → a ≢ null
Links-ne_null h prev [] stop a l i = cc
Links-ne_null h prev (p ∷ xs) stop a (nz, pre, next, out, l) i =
    ground (arith, Links-ne_null h p xs stop a l)

-- Two chains join where the first ends at the second, and their nodes differ.
pub Links-append :
    (h : Nodes) (prev : Ptr) (xs ys : List Ptr) (stop : Ptr)
    → Links h prev xs (head_or stop ys)
    → Links h (last_or prev xs) ys stop
    → ((a : Ptr) → a ∈ xs → a ∉ ys)
    → Links h prev (xs ++ ys) stop
Links-append h prev [] ys stop l k apart = k
Links-append h prev (p ∷ xs) ys stop (nz, pre, next, out, l) k apart = (
  nz,
  pre,
  rw (head_or-append stop xs ys) next,
  rw (has-append p xs ys) (ground (arith, apart p)),
  Links-append h p xs ys stop l k (λ a i. apart a (ground arith)),
)

-- And come apart again.
pub Links-split :
    (h : Nodes) (prev : Ptr) (xs ys : List Ptr) (stop : Ptr)
    → Links h prev (xs ++ ys) stop
    → Links h prev xs (head_or stop ys)
      × Links h (last_or prev xs) ys stop
      × ((a : Ptr) → a ∈ xs → a ∉ ys)
Links-split h prev [] ys stop l = (tt, l, λ a i. cc)
Links-split h prev (p ∷ xs) ys stop (nz, pre, next, out, l) =
    let (left, right, apart) = Links-split h p xs ys stop l in
    (
      (nz, pre, rw (head_or-append stop xs ys) at next, ground (arith, has-append p xs ys), left),
      right,
      λ a i. ground (arith, apart a, has-append p xs ys),
    )

pub ne_of_mem : (a b : Ptr) (xs : List Ptr) → a ∉ xs → b ∈ xs → a ≢ b
ne_of_mem a b xs out i e = cc (ap (λ x. has x xs) e)

pub set_next_other : (h : Nodes) (a p q : Ptr) → a ≢ p → set_next h p q a ≡ h a
set_next_other h a p q ne = ground arith

pub set_pre_other : (h : Nodes) (a p q : Ptr) → a ≢ p → set_pre h p q a ≡ h a
set_pre_other h a p q ne = ground arith

-- The last node's `next` is redirected.
pub Links-set_next :
    (h : Nodes) (prev p : Ptr) (xs : List Ptr) (stop stop' : Ptr)
    → Links h prev (p ∷ xs) stop
    → Links (set_next h (last_or p xs) stop') prev (p ∷ xs) stop'
Links-set_next h prev p [] stop stop' (nz, pre, next, out, l) =
    (nz, ground arith, ground arith, refl, tt)
Links-set_next h prev p (q ∷ xs) stop stop' (nz, pre, next, out, l) =
    let same =
      set_next_other h p (last_or q xs) stop' (ne_of_mem p _ (q ∷ xs) out (last_or-mem q xs)) in
    (nz, rw same pre, rw same next, out, Links-set_next h p q xs stop stop' l)

-- The first node's `pre` is redirected.
pub Links-set_pre :
    (h : Nodes) (prev prev' p : Ptr) (xs : List Ptr) (stop : Ptr)
    → Links h prev (p ∷ xs) stop
    → Links (set_pre h p prev') prev' (p ∷ xs) stop
Links-set_pre h prev prev' p xs stop (nz, pre, next, out, l) =
    (nz, ground arith, ground arith, out, Links-frame h _ p xs stop (λ a i. ground arith) l)
