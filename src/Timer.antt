-- ===== src/Timer.antt =====
-- kernel/timer.c: the list of timers, and the soft interrupt that runs those that are due.
--
-- A timer is the address of its timer_list, which holds one list node; `head` is timer_list_head.
-- What a timer's function does to the world outside the list is a function on a type W.
pub mod Place
pub mod Fire
use mine_os.Prelude.{
  ℕ, zero, suc, ◌+◌, ◌%◌, ◌^◌, Bool, true, false, not, ◌&&◌, Option, none, some, leb, if◌then◌else◌,
}
use mine_os.Links.{Links, update, list_init, list_add_to_behind, list_del, list_is_empty, list_next}
use mine_os.Links.Place.{walk}

pub record Timers (W : Type 0) : Type 0 where
  pub links : Links
  pub expire_jiffies : ℕ → ℕ
  pub func : ℕ → W → W
  pub jiffies : ℕ
  pub world : W

-- -1UL
abbrev pub never : ℕ
never = 0xffff_ffff

module _ {W : Type 0} where
  unfoldable pub init_timer : Timers W → ℕ → (W → W) → ℕ → Timers W
  init_timer t timer func expire_jiffies = record t {
    links = list_init t.links timer;
    func = update t.func timer func;
    expire_jiffies = update t.expire_jiffies timer ((t.jiffies + expire_jiffies) % 2 ^ 32);
  }

  unfoldable pub del_timer : Timers W → ℕ → Timers W
  del_timer t timer = record t { links = list_del t.links timer }

  -- The loop that looks for the place runs on fuel; `none` means that the fuel ran out.
  unfoldable pub add_timer : ℕ → ℕ → Timers W → ℕ → Option (Timers W)
  add_timer head fuel t timer =
      let tmp = list_next t.links head in
      let place =
        (if list_is_empty t.links head
          then some tmp
          else walk t.expire_jiffies (t.expire_jiffies timer) fuel t.links tmp) in
      elim place [
        | none ↦ none
        | some at ↦ some (record t { links = list_add_to_behind t.links at timer })
      ]

  unfoldable pub fire : Timers W → ℕ → Timers W
  unfolding del_timer
  fire t timer = let t' = del_timer t timer in record t' { world = t'.func timer t'.world }

  unfoldable pub do_timer : ℕ → ℕ → Timers W → Option (Timers W)
  do_timer head zero t = none
  do_timer head (suc fuel) t =
      let tmp = list_next t.links head in
      let rest = do_timer head fuel (fire t tmp) in
      if not (list_is_empty t.links head) && leb (t.expire_jiffies tmp) t.jiffies
      then rest
      else some t

  -- `tmp` is what kmalloc returns, and `test_timer` the test function of the source. The
  -- registration of do_timer as soft interrupt 0 is the caller's.
  unfoldable pub timer_init : ℕ → ℕ → Timers W → ℕ → (W → W) → Option (Timers W)
  timer_init head fuel t tmp test_timer =
      let t₁ = record t { jiffies = 0 } in
      let t₂ = init_timer t₁ head (λ w. w) never in
      add_timer head fuel (init_timer t₂ tmp test_timer 5) tmp
