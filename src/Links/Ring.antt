-- ===== src/Links/Ring.antt =====
-- What a chain of nodes is, and that a ring may be read from any of its nodes.
use mine_os.Prelude.{ℕ, ◌≡◌, sym, ◌≢◌, List, [], ◌∷◌, ◌++◌, All}
use mine_os.Links.{Links}

-- From node a along xs to node b, in both directions.
abbrev pub Linked : Links → ℕ → List ℕ → ℕ → Type 0
Linked h a [] b = (h.next a ≡ b) × (h.prev b ≡ a)
Linked h a (x ∷ xs) b = (h.next a ≡ x) × (h.prev x ≡ a) × Linked h x xs b

abbrev pub NotIn : ℕ → List ℕ → Type 0
NotIn a = All (λ x. a ≢ x)

abbrev pub Distinct : List ℕ → Type 0
Distinct [] = Unit
Distinct (x ∷ xs) = NotIn x xs × Distinct xs

-- The nodes after `head`, in order, until `head` comes again.
pub record IsRing (h : Links) (head : ℕ) (xs : List ℕ) : Type 0 where
  pub linked : Linked h head xs head
  pub distinct : Distinct (head ∷ xs)

-- The node of a ∷ xs at the end.
abbrev pub last : ℕ → List ℕ → ℕ
last a [] = a
last a (x ∷ xs) = last x xs

pub prev-last : (h : Links) (a : ℕ) (xs : List ℕ) (b : ℕ) → Linked h a xs b → h.prev b ≡ last a xs
prev-last h a [] b l = l.1
prev-last h a (x ∷ xs) b l = prev-last h x xs b l.2

pub NotIn-last : (c a : ℕ) (xs : List ℕ) → c ≢ a → NotIn c xs → c ≢ last a xs
NotIn-last c a [] h k = h
NotIn-last c a (x ∷ xs) h k = NotIn-last c x xs k.0 k.1

pub Linked-split :
    (h : Links) (a : ℕ) (xs : List ℕ) (e : ℕ) (ys : List ℕ) (b : ℕ)
    → Linked h a (xs ++ e ∷ ys) b
    → Linked h a xs e × Linked h e ys b
Linked-split h a [] e ys b l = ((l.0, l.1), l.2)
Linked-split h a (x ∷ xs) e ys b l =
    let r = Linked-split h x xs e ys b l.2 in ((l.0, l.1, r.0), r.1)

pub Linked-join :
    (h : Links) (a : ℕ) (xs : List ℕ) (e : ℕ) (ys : List ℕ) (b : ℕ)
    → Linked h a xs e
    → Linked h e ys b
    → Linked h a (xs ++ e ∷ ys) b
Linked-join h a [] e ys b l m = (l.0, l.1, m)
Linked-join h a (x ∷ xs) e ys b l m = (l.0, l.1, Linked-join h x xs e ys b l.2 m)

pub NotIn-append : (c : ℕ) (xs ys : List ℕ) → NotIn c xs → NotIn c ys → NotIn c (xs ++ ys)
NotIn-append c [] ys p q = q
NotIn-append c (x ∷ xs) ys p q = (p.0, NotIn-append c xs ys p.1 q)

pub NotIn-left : (c : ℕ) (xs ys : List ℕ) → NotIn c (xs ++ ys) → NotIn c xs
NotIn-left c [] ys p = tt
NotIn-left c (x ∷ xs) ys p = (p.0, NotIn-left c xs ys p.1)

pub NotIn-right : (c : ℕ) (xs ys : List ℕ) → NotIn c (xs ++ ys) → NotIn c ys
NotIn-right c [] ys p = p
NotIn-right c (x ∷ xs) ys p = NotIn-right c xs ys p.1

-- No node of xs is one of ys.
abbrev pub Apart : List ℕ → List ℕ → Type 0
Apart [] ys = Unit
Apart (x ∷ xs) ys = NotIn x ys × Apart xs ys

pub Apart-nil : (xs : List ℕ) → Apart xs []
Apart-nil [] = tt
Apart-nil (x ∷ xs) = (tt, Apart-nil xs)

pub Apart-cons : (xs : List ℕ) (y : ℕ) (ys : List ℕ) → NotIn y xs → Apart xs ys → Apart xs (y ∷ ys)
Apart-cons [] y ys p q = tt
Apart-cons (x ∷ xs) y ys p q = ((λ e. p.0 (sym e), q.0), Apart-cons xs y ys p.1 q.1)

pub Apart-symm : (xs ys : List ℕ) → Apart xs ys → Apart ys xs
Apart-symm [] ys p = Apart-nil ys
Apart-symm (x ∷ xs) ys p = Apart-cons ys x xs p.0 (Apart-symm xs ys p.1)

pub Distinct-split :
    (xs ys : List ℕ) → Distinct (xs ++ ys) → Distinct xs × Distinct ys × Apart xs ys
Distinct-split [] ys d = (tt, d, tt)
Distinct-split (x ∷ xs) ys d =
    let r = Distinct-split xs ys d.1 in
    ((NotIn-left x xs ys d.0, r.0), r.1, (NotIn-right x xs ys d.0, r.2))

pub Distinct-join : (xs ys : List ℕ) → Distinct xs → Distinct ys → Apart xs ys → Distinct (xs ++ ys)
Distinct-join [] ys d e a = e
Distinct-join (x ∷ xs) ys d e a = (NotIn-append x xs ys d.0 a.0, Distinct-join xs ys d.1 e a.1)

pub Distinct-rotate : (xs ys : List ℕ) → Distinct (xs ++ ys) → Distinct (ys ++ xs)
Distinct-rotate xs ys d =
    let r = Distinct-split xs ys d in Distinct-join ys xs r.1 r.0 (Apart-symm xs ys r.2)

-- A ring read from another of its nodes.
pub IsRing-rotate :
    {h : Links} {a : ℕ} (xs : List ℕ) (e : ℕ) (ys : List ℕ)
    → IsRing h a (xs ++ e ∷ ys)
    → IsRing h e (ys ++ a ∷ xs)
IsRing-rotate {h} {a} xs e ys r =
    let s = Linked-split h a xs e ys a r.linked in
    record {
      linked = Linked-join h e ys a xs e s.1 s.0;
      distinct = Distinct-rotate (a ∷ xs) (e ∷ ys) r.distinct;
    }
