-- ===== src/Irda/Ring.antt =====
-- circle_buffer.c: the ring of 1024 places is a queue of at most 1023 events.
use mine_os.Prelude.{
  ℕ, ◌+◌, ◌-◌, ◌%◌, ◌<◌, ◌≤◌, ◌==◌, ◌≡◌, ◌∙◌, sym, ap, subst, false, arith, none, some, List, [],
  ◌∷◌, ◌++◌, length, length-append, ==_refl, ==_false,
}
use mine_os.Bits.Clear.{bit_and_mask}
use mine_os.Links.{update}
use mine_os.Links.Splice.{update_self, update_ne}
use mine_os.Irda.{
  Event, Buffer, next_place, ir_event_put, ir_event_get, is_ir_event_buf_empty,
  is_ir_event_buf_full,
}

pub next_place_lem : (i : ℕ) → next_place i ≡ (i + 1) % 1024
unfolding next_place
next_place_lem i = bit_and_mask (i + 1) 10

-- The places from r on hold xs.
abbrev pub Spread : (ℕ → Event) → ℕ → List Event → Type 0
Spread events r [] = Unit
Spread events r (x ∷ xs) = (events (r % 1024) ≡ x) × Spread events (r + 1) xs

-- The ring holds the events xs, the oldest first.
pub record Holds (b : Buffer) (xs : List Event) : Type 0 where
  pub r_bound : b.r < 1024
  pub end : b.w ≡ (b.r + length xs) % 1024
  pub size : length xs < 1024
  pub places : Spread b.events b.r xs

-- A write beyond the places of xs.
Spread-write :
    (events : ℕ → Event) (r n : ℕ) (xs : List Event) (e : Event)
    → length xs ≤ n
    → n < 1024
    → Spread events r xs
    → Spread (update events ((r + n) % 1024) e) r xs
Spread-write events r n [] e h k s = tt
Spread-write events r n (x ∷ xs) e h k s = (
  update_ne events ((r + n) % 1024) e (r % 1024) (omega arith) ∙ s.0,
  subst (λ p. Spread (update events (p % 1024) e) (r + 1) xs) (omega arith)
      (Spread-write events (r + 1) (n - 1) xs e (omega arith) (omega arith) s.1),
)

Spread-append :
    (events : ℕ → Event) (r : ℕ) (xs : List Event) (e : Event)
    → Spread events r xs
    → events ((r + length xs) % 1024) ≡ e
    → Spread events r (xs ++ e ∷ [])
Spread-append events r [] e s h = (ap (λ p. events (p % 1024)) (omega arith) ∙ h, tt)
Spread-append events r (x ∷ xs) e s h =
    (s.0, Spread-append events (r + 1) xs e s.1 (ap (λ p. events (p % 1024)) (omega arith) ∙ h))

Spread-mod :
    (events : ℕ → Event) (r q : ℕ) (xs : List Event)
    → r % 1024 ≡ q % 1024
    → Spread events r xs
    → Spread events q xs
Spread-mod events r q [] e s = tt
Spread-mod events r q (x ∷ xs) e s =
    (ap events (sym e) ∙ s.0, Spread-mod events (r + 1) (q + 1) xs (omega arith) s.1)

-- Putting an event into a ring that holds fewer than 1023 appends it.
pub ir_event_put_lem :
    (b : Buffer) (xs : List Event) (e : Event)
    → Holds b xs
    → length xs < 1023
    → (b' : Buffer) × (ir_event_put b e ≡ some b') × Holds b' (xs ++ e ∷ [])
unfolding ir_event_put is_ir_event_buf_full
ir_event_put_lem b xs e v h =
    let w = b.w in
    let next : next_place w ≡ (w + 1) % 1024 = next_place_lem w in
    let room : (next_place w == b.r) ≡ false =
      ==_false _ _ (omega (arith, next, v.end, v.size, v.r_bound)) in
    (
      record b { events = update b.events w e; w = next_place w },
      rw room,
      record {
        r_bound = v.r_bound;
        end = omega (arith, next, v.end, length-append xs (e ∷ []));
        size = omega (arith, length-append xs (e ∷ []));
        places =
            subst (λ p. Spread (update b.events p e) b.r (xs ++ e ∷ [])) (sym v.end)
              (Spread-append (update b.events ((b.r + length xs) % 1024) e) b.r xs e
                (Spread-write b.events b.r (length xs) xs e (omega arith) v.size v.places)
                (update_self b.events ((b.r + length xs) % 1024) e));
      },
    )

-- A ring that holds 1023 refuses.
pub ir_event_put_full :
    (b : Buffer) (xs : List Event) (e : Event)
    → Holds b xs
    → length xs ≡ 1023
    → ir_event_put b e ≡ none
unfolding ir_event_put is_ir_event_buf_full
ir_event_put_full b xs e v h =
    let full : next_place b.w ≡ b.r = omega (arith, next_place_lem b.w, v.end, v.r_bound) in
    rw (full, ==_refl b.r)

-- Getting takes the oldest event.
pub ir_event_get_lem :
    (b : Buffer) (x : Event) (xs : List Event)
    → Holds b (x ∷ xs)
    → (b' : Buffer) × (ir_event_get b ≡ some (x, b')) × Holds b' xs
unfolding ir_event_get is_ir_event_buf_empty
ir_event_get_lem b x xs v =
    let next = next_place_lem b.r in
    let some_left : (b.r == b.w) ≡ false = ==_false _ _ (omega (arith, v.end, v.size, v.r_bound)) in
    (
      record b { r = next_place b.r },
      rw some_left (
          ap (λ y. some (y, record b { r = next_place b.r }))
            (ap b.events (omega (arith, v.r_bound)) ∙ v.places.0)),
      record {
        r_bound = omega (arith, next);
        end = omega (arith, next, v.end, v.r_bound);
        size = omega (arith, v.size);
        places = Spread-mod b.events (b.r + 1) (next_place b.r) xs (omega (arith, next)) v.places.1;
      },
    )

pub ir_event_get_empty : (b : Buffer) → Holds b [] → ir_event_get b ≡ none
unfolding ir_event_get is_ir_event_buf_empty
ir_event_get_empty b v =
    let same : b.r ≡ b.w = omega (arith, v.end, v.r_bound) in rw (same, ==_refl b.w)
