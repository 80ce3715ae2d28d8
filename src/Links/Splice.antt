-- ===== src/Links/Splice.antt =====
-- The list functions of include/lib.h on rings.
use mine_os.Prelude.{
  ℕ, ◌≡◌, refl, sym, ◌≢◌, ◌↔◌, List, [], ◌∷◌, ◌++◌, ◌∙◌, arith, true, false, ==_refl, ==_false,
}
use mine_os.Links.{
  Links, update, list_init, list_add_to_behind, list_add_to_before, list_del, list_is_empty,
  list_next,
}
use mine_os.Links.Ring.{
  Linked, NotIn, Distinct, IsRing, last, prev-last, NotIn-last, Linked-join, Distinct-rotate,
}

-- A write is seen at its node alone.
pub update_self {ℓ} : {A : Type ℓ} (f : ℕ → A) (p : ℕ) (v : A) → update f p v p ≡ v
update_self f p v = rw (==_refl p)

pub update_ne {ℓ} : {A : Type ℓ} (f : ℕ → A) (p : ℕ) (v : A) (q : ℕ) → p ≢ q → update f p v q ≡ f q
update_ne f p v q h = rw (==_false p q h)

-- A chain whose last link is turned to z, in memory h' that differs from h at the nodes o and c
-- besides.
relink :
    (h h' : Links) (o c z a : ℕ) (xs : List ℕ) (b : ℕ)
    → ((p : ℕ) → p ≢ last a xs → o ≢ p → h'.next p ≡ h.next p)
    → ((p : ℕ) → z ≢ p → c ≢ p → h'.prev p ≡ h.prev p)
    → h'.next (last a xs) ≡ z
    → h'.prev z ≡ last a xs
    → NotIn o (a ∷ xs)
    → NotIn z xs
    → NotIn c xs
    → Distinct (a ∷ xs)
    → Linked h a xs b
    → Linked h' a xs z
relink h h' o c z a [] b sn sp en ep fo nz nc d l = (en, ep)
relink h h' o c z a (x ∷ xs) b sn sp en ep fo nz nc d l = (
  sn a (NotIn-last a x xs d.0.0 d.0.1) fo.0 ∙ l.0,
  sp x nz.0 nc.0 ∙ l.1,
  relink h h' o c z x xs b sn sp en ep fo.1 nz.1 nc.1 d.1 l.2,
)

-- A chain that a change at four nodes does not meet.
keep :
    (h h' : Links) (o q c z a : ℕ) (xs : List ℕ) (b : ℕ)
    → ((p : ℕ) → o ≢ p → q ≢ p → h'.next p ≡ h.next p)
    → ((p : ℕ) → c ≢ p → z ≢ p → h'.prev p ≡ h.prev p)
    → NotIn o (a ∷ xs)
    → NotIn q (a ∷ xs)
    → NotIn c xs × (c ≢ b)
    → NotIn z xs × (z ≢ b)
    → Linked h a xs b
    → Linked h' a xs b
keep h h' o q c z a [] b sn sp fo fq fc fz l = (sn a fo.0 fq.0 ∙ l.0, sp b fc.1 fz.1 ∙ l.1)
keep h h' o q c z a (x ∷ xs) b sn sp fo fq fc fz l = (
  sn a fo.0 fq.0 ∙ l.0,
  sp x fc.0.0 fz.0.0 ∙ l.1,
  keep h h' o q c z x xs b sn sp fo.1 fq.1 (fc.0.1, fc.1) (fz.0.1, fz.1) l.2,
)

-- A fresh node put before the node that a ring is read from becomes the last one.
pub list_add_to_before-IsRing :
    {h : Links} {entry : ℕ} {xs : List ℕ} (new : ℕ)
    → IsRing h entry xs
    → NotIn new (entry ∷ xs)
    → IsRing (list_add_to_before h entry new) entry (xs ++ new ∷ [])
unfolding list_add_to_before
list_add_to_before-IsRing {h} {entry} {xs} new r f =
    let back = prev-last h entry xs entry r.linked in
    let fresh = NotIn-last new entry xs f.0 f.1 in
    record {
      linked =
          Linked-join (list_add_to_before h entry new) entry xs new [] entry
            (relink h (list_add_to_before h entry new) new entry new entry xs entry
              (λ p k l. ground (arith, back)) (λ p k l. ground arith) (ground (arith, back))
              (ground (arith, back, f.0)) f f.1 r.distinct.0 r.distinct r.linked)
            (ground (arith, back), ground (arith, back));
      distinct = Distinct-rotate (new ∷ []) (entry ∷ xs) (f, r.distinct);
    }

behind_tail :
    (h : Links) (entry new : ℕ) (xs : List ℕ)
    → Linked h entry xs entry
    → Distinct (entry ∷ xs)
    → NotIn new (entry ∷ xs)
    → Linked (list_add_to_behind h entry new) new xs entry
unfolding list_add_to_behind
behind_tail h entry new [] l d f = ground (arith, f.0)
behind_tail h entry new (x ∷ xs) l d f = (
  ground (arith, f.0, l.0),
  ground (arith, f.0, l.0, f.1.0),
  keep h (list_add_to_behind h entry new) new entry new x x xs entry (λ p k m. ground arith)
      (λ p k m. ground (arith, l.0)) f.1 d.0 (f.1.1, f.0) (d.1.0, (λ e. d.0.0 (sym e))) l.2,
)

next_fresh :
    (h : Links) (entry new : ℕ) (xs : List ℕ)
    → Linked h entry xs entry
    → NotIn new (entry ∷ xs)
    → new ≢ h.next entry
next_fresh h entry new [] l f = rw l.0 f.0
next_fresh h entry new (x ∷ xs) l f = rw l.0 f.1.0

-- A fresh node put behind the node that a ring is read from becomes the first one.
pub list_add_to_behind-IsRing :
    {h : Links} {entry : ℕ} {xs : List ℕ} (new : ℕ)
    → IsRing h entry xs
    → NotIn new (entry ∷ xs)
    → IsRing (list_add_to_behind h entry new) entry (new ∷ xs)
unfolding list_add_to_behind
list_add_to_behind-IsRing {h} {entry} {xs} new r f = record {
  linked = (
    ground arith,
    ground (arith, f.0, next_fresh h entry new xs r.linked f),
    behind_tail h entry new xs r.linked r.distinct f,
  );
  distinct = (((λ e. f.0 (sym e)), r.distinct.0), (f.1, r.distinct.1));
}

-- Without the node that it is read from, a ring is read from the next one.
pub list_del-IsRing :
    {h : Links} {entry x : ℕ} {xs : List ℕ}
    → IsRing h entry (x ∷ xs)
    → IsRing (list_del h entry) x xs
unfolding list_del
list_del-IsRing {h} {entry} {x} {xs} r =
    let back = prev-last h x xs entry r.linked.2 in
    record {
      linked =
          relink h (list_del h entry) entry x x x xs entry
            (λ p k l. ground (arith, back, r.linked.0, r.distinct.0.0))
            (λ p k l. ground (arith, r.linked.0)) (ground (arith, back, r.linked.0, r.distinct.0.0))
            (ground (arith, back, r.linked.0, r.distinct.0.0)) r.distinct.0 r.distinct.1.0
            r.distinct.1.0 r.distinct.1 r.linked.2;
      distinct = r.distinct.1;
    }

-- A list that is just made is empty.
pub list_init-IsRing : (h : Links) (list : ℕ) → IsRing (list_init h list) list []
unfolding list_init
list_init-IsRing h list = record { linked = (ground arith, ground arith); distinct = (tt, tt) }

-- The emptiness test is true on the empty ring, and only there.
pub list_is_empty-ring :
    {h : Links} {entry : ℕ} (xs : List ℕ)
    → IsRing h entry xs
    → (list_is_empty h entry ≡ true) ↔ (xs ≡ [])
unfolding list_is_empty
list_is_empty-ring [] r = ((λ _. refl), λ _. ground (arith, r.linked))
list_is_empty-ring (x ∷ xs) r =
    ((λ e. absurd (ground (arith, r.linked.0, r.distinct.0.0))), λ e. absurd (ground arith))

-- The next node of a ring, where no node is the null pointer.
pub list_next-cons :
    {h : Links} {entry x : ℕ} {xs : List ℕ} → IsRing h entry (x ∷ xs) → list_next h entry ≡ x
unfolding list_next
list_next-cons r = ground (arith, r.linked.0)

pub list_next-nil : {h : Links} {entry : ℕ} → IsRing h entry [] → list_next h entry ≡ entry
unfolding list_next
list_next-nil r = ground (arith, r.linked.0)

pub list_is_empty-nil : {h : Links} {entry : ℕ} → IsRing h entry [] → list_is_empty h entry ≡ true
list_is_empty-nil r = (list_is_empty-ring [] r).1 refl

pub list_is_empty-cons :
    {h : Links} {entry x : ℕ} {xs : List ℕ}
    → IsRing h entry (x ∷ xs)
    → list_is_empty h entry ≡ false
unfolding list_is_empty
list_is_empty-cons r = ground (arith, r.linked.0, r.distinct.0.0)

-- A node that is made a list of its own leaves the rings it is not in.
pub IsRing-list_init :
    {h : Links} {entry : ℕ} {xs : List ℕ} (new : ℕ)
    → IsRing h entry xs
    → NotIn new (entry ∷ xs)
    → IsRing (list_init h new) entry xs
unfolding list_init
IsRing-list_init {h} {entry} {xs} new r f = record {
  linked =
      keep h (list_init h new) new new new new entry xs entry (λ p k m. ground arith)
        (λ p k m. ground arith) f f (f.1, f.0) (f.1, f.0) r.linked;
  distinct = r.distinct;
}
