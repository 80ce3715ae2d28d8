-- ===== src/Lib.antt =====
-- MINE OS: a verification library beside the kernel.
--
-- MINE OS runs on one S3C2440. An interrupt enters do_irq (kernel/interrupt.c), which finds the
-- line's descriptor and calls its handler through the interrupt controller (kernel/irq.c); the
-- handlers raise soft interrupts (kernel/softirq.c), among them the one that runs the timers
-- (kernel/timer.c), and the tick accounts for the running task, which the scheduler
-- (kernel/schedule.c) then changes. Tasks wait in wait queues and semaphores (kernel/waitqueue.c,
-- kernel/semaphore.c). All of these keep their members in the circular lists of include/lib.h.
-- Memory comes from the page allocator (mm/memory.c). Drivers stand on these parts.
--
-- The files:
--   Prelude: the numbers, lists and tests that the others share. Bits: words read bit by bit.
--   Links: the list functions of include/lib.h. A node is its address; the memory is the two
--     fields of every node. Links/Ring says what a ring of nodes is, Links/Splice what each
--     function does to one, Links/Place and Links/Sorted where a node goes in an ordered ring.
--   Sched: kernel/schedule.c, with switch_to of include/task.h and the accounting of
--     tick_irq_hander in drivers/timer.c. get_next_task, insert_task_queue, schedule and
--     schedule_init keep their names; refill and dispatch are the two halves of schedule.
--     Sched/Queue is about the run queue, Sched/Dispatch and Sched/Choice about who runs, and
--     Sched/Slice about the time slices.
--   Wait: kernel/waitqueue.c and kernel/semaphore.c; wake_first and wait_for_up are __up and
--     __down.
--   Timer: kernel/timer.c; fire is the body of the loop of do_timer.
--   Softirq: kernel/softirq.c; serve is the body of the loop of do_softirq, and rounds the loop.
--   Tick: tick_irq_hander of drivers/timer.c, over Sched, Timer and Softirq.
--   Irq: the masks and acknowledgements of kernel/irq.c; Irq/Ffs is include/__ffs.h, Irq/Demux and
--     Irq/Pending the demultiplexers, Irq/Parent the main lines that external lines share (its
--     children have the lemmas on words of mask bits),
--     Irq/Table and Irq/Init the descriptors with request_irq and free_irq of kernel/interrupt.c,
--     Irq/Flows what irq_init puts into them, Irq/Dispatch generic_handle_irq, and Irq/Entry do_irq,
--     which runs the handlers, then do_softirq and schedule: its state has the machine, the soft
--     interrupts and the scheduler. Calls nest three deep at most.
--   Irda: drivers/sensors/irda/circle_buffer.c (Irda/Ring, Irda/Read), irda_nec.c (Irda/Decode)
--     and the interrupt handler of irda_raw.c (Irda/Capture), with the edges as a list.
--   Memory: pages, zones and the bit map of mm/memory.c, with the bit macros of include/lib.h
--     (Memory/Bitmap); Memory/Search, Memory/Alloc and Memory/Free are about alloc_pages and
--     free_pages, and Memory/Setup is init_memory, which they start from: Setup/Pages is about its
--     loops, Setup/Zones about the result and Setup/Handout about alloc_pages in that memory.
--     Setup/Ram is about the zone with any of its pages in use, Setup/Windows and Setup/Release
--     about alloc_pages and free_pages there.
--     Memory/Slab is kmalloc and kmalloc_create, and Slab/Free kfree: put_color and release_slab
--     are parts of kfree, grow and take_from_slab of kmalloc. Slab/Take is about the searches,
--     Slab/Invariant and Slab/Blocks about what the counters say of the maps, Slab/Fresh,
--     Slab/Grow and Slab/Create about new slabs, Slab/Kmalloc, Slab/Given, Slab/Kfree,
--     Slab/Restore and Slab/RoundTrip about the results. Slab/Objects and Slab/Destroy are the caches of
--     slab_create (create_pool is its end, add_slab and construct parts of slab_malloc),
--     Slab/Padded is about their slab_free; Slab/Init is slab_init, and Slab/Pools and Slab/Ready
--     what it sets up.
--   Mmu: the first-level page table of mm/mmu.c; section is the descriptor that __set_section
--     stores (set_one_section), set_sections the loop of set_section. Mmu/Map is about what
--     addresses lead to.
--   Nand: drivers/nand.c, with the history of the bus as its state; Nand/Address, Nand/Read,
--     Nand/Contents and Nand/Write are about the parts of an address, the reads and the writes.
--   UsbBuffer: drivers/usbslave/buff.c.
--   Rtc: RTC_Set and RTC_Read of drivers/RTC.c, over a clock that runs while it is read.
--   I2c: the master of drivers/i2c/s3c2440_i2c_controller.c (I2c/Send, I2c/Receive) and at24cxx.c
--     above it (I2c/Eeprom), with the history of the registers as their state.
--   Usb: endpoint 0 of drivers/usbslave: the transmission of usb_lib.c in Usb, the standard
--     requests of usb_isr.c in Usb/Control and its interrupt handler in Usb/Handler. Usb/Packets
--     is about the packets of a message, Usb/Feature about the halt of an endpoint, and Usb/Bounds
--     about the place in the buffer.
--   UsbMass: drivers/usbslave/mass_storage over the endpoints 2 and 3 of usb_lib.c; UsbMass/Command
--     is usb_mass.c with the two handlers of usb_dev_mass.c, where mass_command is the switch on the
--     command. UsbMass/Packets and UsbMass/Arrivals are about what is sent and received,
--     UsbMass/Stored, UsbMass/Sent, UsbMass/RoundTrip and UsbMass/Refused about writes and reads.
--   Ds18b20: drivers/sensors/ds18b20/ds18b20.c, with the history of the pin as its state: bytes on
--     the wire in Ds18b20/Slots, the value of the scratchpad in Ds18b20/Temperature, and a
--     thermometer that does not answer in Ds18b20/Errors. temperature_of is the middle of
--     ds18b20_read_temperature.
--   Dht11: drivers/sensors/dht11/dht11.c, in the same way; Dht11/Frame is about what it reads.
--   Tasks: do_fork and kernel_thread of kernel/task.c, over kmalloc and the run queue; copy_task
--     is the part of do_fork that fills the new task. Tasks/Fork is about what it makes.
--   SpiFlash: drivers/spi/spi_flash.c, with the history of the bus as its state.
--   Tests: a scene of the kernel and runs of the code.
--
-- State is passed from call to call, and what a pointer reaches is a function on addresses. NULL is 0
-- where the code can meet it, and a returned NULL or -1 is `none` where nothing else comes with it.
-- Registers and chips are hardware, not code: the operations take their reads and writes, or what a
-- chip answers, as parameters. wakeup_process is defined nowhere in the repository and is one too.
--
-- Loops that walk a list, wait for a chip or serve pending lines run on fuel, and `none` means that it
-- ran out. A list needs more fuel than it has nodes; the loop over the pending external lines needs
-- 33; a wait needs more than the number of times that the chip says it is busy; a read from NAND needs
-- more than the number of bytes; kmalloc and kfree need a depth of 2 where a slab is made, or released,
-- whose struct is allocated itself. The other loops are bounded by the code and are structural.
-- The scheduler's counters and times are longs that stay far from their limits and do not wrap here;
-- the words of the registers, the page counters, the addresses and the clocks wrap as in C.
--
-- Not modelled: the SD driver, the mouse and the downloads over USB, and the loader from NAND; the
-- library functions, FatFs and the fonts, which are copies of other projects; assembly; menus, drawing
-- and output.
pub mod Prelude
pub mod Bits
pub mod Links
pub mod Sched
pub mod Wait
pub mod Timer
pub mod Softirq
pub mod Irq
pub mod I2c
pub mod Irda
pub mod Memory
pub mod Mmu
pub mod Nand
pub mod Tasks
pub mod Tick
pub mod Usb
pub mod UsbBuffer
pub mod UsbMass
pub mod Rtc
pub mod SpiFlash
pub mod Ds18b20
pub mod Dht11
pub mod Tests
