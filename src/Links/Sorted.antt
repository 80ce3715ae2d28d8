-- ===== src/Links/Sorted.antt =====
-- Rings in the order of a key, and what the list functions leave alone.
use mine_os.Prelude.{
  refl, ℕ, ◌≤◌, ◌≡◌, ◌≢◌, List, [], ◌∷◌, ◌++◌, ◌∙◌, All, arith, ltb, ltb→lt, Bool-cases, inl, inr,
  length, suc, length-append, ap, le→ltb_false,
}
use mine_os.Links.{Links, list_add_to_before, list_del}
use mine_os.Links.Ring.{
  Linked, NotIn, IsRing, prev-last, NotIn-last, Apart, NotIn-append, NotIn-left, NotIn-right,
  IsRing-rotate,
}
use mine_os.Links.Place.{first, before, after, before-append-after, next-first, list_next_lem}

module _ (key : ℕ → ℕ) where
  abbrev pub IsSorted : List ℕ → Type 0
  IsSorted [] = Unit
  IsSorted (x ∷ xs) = All (λ y. key x ≤ key y) xs × IsSorted xs

  All-before :
      (k b : ℕ) (xs : List ℕ) → All (λ y. b ≤ key y) xs → All (λ y. b ≤ key y) (before key k xs)
  All-before k b [] p = tt
  All-before k b (x ∷ xs) p = elim (Bool-cases (ltb (key x) k)) [
    | inl e ↦ rw e (p.0, All-before k b xs p.1)
    | inr e ↦ rw e tt
  ]

  pub All-insert :
      (k b t : ℕ) (xs : List ℕ)
      → b ≤ key t
      → All (λ y. b ≤ key y) xs
      → All (λ y. b ≤ key y) (before key k xs ++ t ∷ after key k xs)
  All-insert k b t [] h p = (h, tt)
  All-insert k b t (x ∷ xs) h p = elim (Bool-cases (ltb (key x) k)) [
    | inl e ↦ rw e (p.0, All-insert k b t xs h p.1)
    | inr e ↦ rw e (h, p)
  ]

  pub All-le_trans :
      (b c : ℕ) (xs : List ℕ) → b ≤ c → All (λ y. c ≤ key y) xs → All (λ y. b ≤ key y) xs
  All-le_trans b c [] h p = tt
  All-le_trans b c (x ∷ xs) h p = (omega arith, All-le_trans b c xs h p.1)

  -- A node put at the place of its key keeps the order.
  pub insert-IsSorted :
      (t : ℕ) (xs : List ℕ)
      → IsSorted xs
      → IsSorted (before key (key t) xs ++ t ∷ after key (key t) xs)
  insert-IsSorted t [] s = (tt, tt)
  insert-IsSorted t (x ∷ xs) s = elim (Bool-cases (ltb (key x) (key t))) [
    | inl e ↦
        let lt = ltb→lt (key x) (key t) e in
        rw e (All-insert (key t) (key x) t xs (omega arith) s.0, insert-IsSorted t xs s.1)
    | inr e ↦
        let ge : key t ≤ key x = ground arith in
        rw e ((ge, All-le_trans (key t) (key x) xs ge s.0), s)
  ]

pub length-insert :
    (key : ℕ → ℕ) (k t : ℕ) (xs : List ℕ)
    → length (before key k xs ++ t ∷ after key k xs) ≡ suc (length xs)
length-insert key k t xs = omega (
  arith,
  length-append (before key k xs) (t ∷ after key k xs),
  length-append (before key k xs) (after key k xs),
  ap length (before-append-after key k xs),
)

NotIn-insert : (p t : ℕ) (ws bs : List ℕ) → p ≢ t → NotIn p (ws ++ bs) → NotIn p (ws ++ t ∷ bs)
NotIn-insert p t [] bs h f = (h, f)
NotIn-insert p t (w ∷ ws) bs h f = (f.0, NotIn-insert p t ws bs h f.1)

-- What is not t and not in a list is not in the list with t put at its place.
pub NotIn-enqueue :
    (key : ℕ → ℕ) (k p t : ℕ) (xs : List ℕ)
    → p ≢ t
    → NotIn p xs
    → NotIn p (before key k xs ++ t ∷ after key k xs)
NotIn-enqueue key k p t xs h f =
    NotIn-insert p t (before key k xs) (after key k xs) h (rw (before-append-after key k xs) f)

-- Two memories that agree at a node.
abbrev pub SameAt : Links → Links → ℕ → Type 0
SameAt h' h p = (h'.next p ≡ h.next p) × (h'.prev p ≡ h.prev p)

Linked-same :
    (h h' : Links) (a : ℕ) (xs : List ℕ) (b : ℕ)
    → All (SameAt h' h) (a ∷ xs)
    → h'.prev b ≡ h.prev b
    → Linked h a xs b
    → Linked h' a xs b
Linked-same h h' a [] b s e l = (s.0.0 ∙ l.0, e ∙ l.1)
Linked-same h h' a (x ∷ xs) b s e l =
    (s.0.0 ∙ l.0, s.1.0.1 ∙ l.1, Linked-same h h' x xs b s.1 e l.2)

-- A ring stands on its own nodes.
pub IsRing-same :
    {h h' : Links} {head : ℕ} {xs : List ℕ}
    → All (SameAt h' h) (head ∷ xs)
    → IsRing h head xs
    → IsRing h' head xs
IsRing-same s r = record { linked = Linked-same _ _ _ _ _ s s.0.1 r.linked; distinct = r.distinct }

-- A function that touches only nodes of ws leaves a ring apart from ws alone.
pub All-same :
    (h h' : Links) (ws : List ℕ) (xs : List ℕ)
    → ((p : ℕ) → NotIn p ws → SameAt h' h p)
    → Apart xs ws
    → All (SameAt h' h) xs
All-same h h' ws [] s ap = tt
All-same h h' ws (x ∷ xs) s ap = (s x ap.0, All-same h h' ws xs s ap.1)

NotIn-first : (p b : ℕ) (xs : List ℕ) → p ≢ b → NotIn p xs → p ≢ first xs b
NotIn-first p b [] h k = h
NotIn-first p b (x ∷ xs) h k = k.0

-- Insertion before a node touches that node, the one before it, and the new one.
pub insert_before_same :
    {h : Links} {entry : ℕ} {xs : List ℕ} (new : ℕ)
    → IsRing h entry xs
    → (p : ℕ) → NotIn p (new ∷ entry ∷ xs)
    → SameAt (list_add_to_before h entry new) h p
unfolding list_add_to_before
insert_before_same {h} {entry} {xs} new r p f =
    let back = prev-last h entry xs entry r.linked in
    let other = NotIn-last p entry xs f.1.0 f.1.1 in
    (ground (arith, f.0, f.1.0, back, other), ground (arith, f.0, f.1.0))

-- Removal of a node touches the two beside it.
pub remove_same :
    {h : Links} {entry : ℕ} {xs : List ℕ}
    → IsRing h entry xs
    → (p : ℕ) → NotIn p (entry ∷ xs)
    → SameAt (list_del h entry) h p
unfolding list_del
remove_same {h} {entry} {xs} r p f =
    let back = prev-last h entry xs entry r.linked in
    let other = NotIn-last p entry xs f.0 f.1 in
    let ahead = next-first h entry xs entry r.linked in
    let ahead' = NotIn-first p entry xs f.0 f.1 in
    (ground (arith, back, other), ground (arith, f.0, ahead, ahead', list_next_lem h entry))

pub Apart-map :
    (xs ys zs : List ℕ) → ((p : ℕ) → NotIn p ys → NotIn p zs) → Apart xs ys → Apart xs zs
Apart-map [] ys zs f d = tt
Apart-map (x ∷ xs) ys zs f d = (f x d.0, Apart-map xs ys zs f d.1)

NotIn-rotate : (p : ℕ) (ws ys : List ℕ) → NotIn p (ws ++ ys) → NotIn p (ys ++ ws)
NotIn-rotate p ws ys f = NotIn-append p ys ws (NotIn-right p ws ys f) (NotIn-left p ws ys f)

-- Insertion into one ring leaves a ring apart from it alone.
pub insert_before-Apart :
    {h : Links} {head : ℕ} (ws bs : List ℕ) (new : ℕ) {other : ℕ} {zs : List ℕ}
    → IsRing h head (ws ++ bs)
    → Apart (other ∷ zs) (new ∷ head ∷ ws ++ bs)
    → IsRing h other zs
    → IsRing (list_add_to_before h (first bs head) new) other zs
insert_before-Apart {h} {head} ws [] new {other} {zs} r d o =
    IsRing-same
      (All-same h (list_add_to_before h head new) (new ∷ head ∷ ws ++ []) (other ∷ zs)
        (insert_before_same new r) d)
      o
insert_before-Apart {h} {head} ws (b ∷ bs) new {other} {zs} r d o =
    IsRing-same
      (All-same h (list_add_to_before h b new) (new ∷ b ∷ bs ++ head ∷ ws) (other ∷ zs)
        (insert_before_same new (IsRing-rotate ws b bs r))
        (Apart-map (other ∷ zs) (new ∷ head ∷ ws ++ b ∷ bs) (new ∷ b ∷ bs ++ head ∷ ws)
          (λ p f. (f.0, NotIn-rotate p (head ∷ ws) (b ∷ bs) f.1)) d))
      o

-- So does removal.
pub remove-Apart :
    {h : Links} {head : ℕ} (ws : List ℕ) (x : ℕ) (bs : List ℕ) {other : ℕ} {zs : List ℕ}
    → IsRing h head (ws ++ x ∷ bs)
    → Apart (other ∷ zs) (head ∷ ws ++ x ∷ bs)
    → IsRing h other zs
    → IsRing (list_del h x) other zs
remove-Apart {h} {head} ws x bs {other} {zs} r d o =
    IsRing-same
      (All-same h (list_del h x) (x ∷ bs ++ head ∷ ws) (other ∷ zs)
        (remove_same (IsRing-rotate ws x bs r))
        (Apart-map (other ∷ zs) (head ∷ ws ++ x ∷ bs) (x ∷ bs ++ head ∷ ws)
          (λ p f. NotIn-rotate p (head ∷ ws) (x ∷ bs) f) d))
      o

All-le_cong :
    (key key' : ℕ → ℕ) (b b' : ℕ) (xs : List ℕ)
    → b' ≡ b
    → All (λ x. key' x ≡ key x) xs
    → All (λ y. b ≤ key y) xs
    → All (λ y. b' ≤ key' y) xs
All-le_cong key key' b b' [] e a h = tt
All-le_cong key key' b b' (x ∷ xs) e a h =
    (omega (arith, e, a.0, h.0), All-le_cong key key' b b' xs e a.1 h.1)

-- The order is one of the keys of the members.
pub IsSorted-cong :
    (key key' : ℕ → ℕ) (xs : List ℕ)
    → All (λ x. key' x ≡ key x) xs
    → IsSorted key xs
    → IsSorted key' xs
IsSorted-cong key key' [] a s = tt
IsSorted-cong key key' (x ∷ xs) a s =
    (All-le_cong key key' (key x) (key' x) xs a.0 a.1 s.0, IsSorted-cong key key' xs a.1 s.1)

-- A key of 0 goes to the front.
pub enqueue_zero : (key : ℕ → ℕ) (xs : List ℕ) → (before key 0 xs ≡ []) × (after key 0 xs ≡ xs)
enqueue_zero key [] = (refl, refl)
enqueue_zero key (x ∷ xs) = let e = le→ltb_false (key x) 0 (omega arith) in (rw e refl, rw e refl)
