-- ===== src/Tick.antt =====
-- drivers/timer.c: tick_irq_hander, the interrupt handler of the system tick.
pub mod Raise
use mine_os.Prelude.{ℕ, ◌+◌, ◌%◌, ◌^◌, leb, if◌then◌else◌}
use mine_os.Links.{list_next}
use mine_os.Sched.{Sched, account_tick}
use mine_os.Timer.{Timers}
use mine_os.Softirq.{Softirq, set_softirq_status}

abbrev pub timer_sirq : ℕ
timer_sirq = 1

-- What the handler reads and writes.
pub record Tick (W : Type 0) : Type 0 where
  pub timers : Timers W
  pub softirq : Softirq W
  pub sched : Sched

-- `head` is timer_list_head; jiffies has 64 bits.
unfoldable pub tick_irq_hander : {W : Type 0} → ℕ → Tick W → Tick W
tick_irq_hander head k =
    let t = record (k.timers) { jiffies = (k.timers.jiffies + 1) % 2 ^ 64 } in
    let raised =
      (if leb (t.expire_jiffies (list_next t.links head)) t.jiffies
        then set_softirq_status k.softirq timer_sirq
        else k.softirq) in
    record { timers = t; softirq = raised; sched = account_tick k.sched }
