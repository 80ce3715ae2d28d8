-- ===== src/Tests/Bus.antt =====
-- The theorems on drivers/i2c and drivers/usbslave at concrete devices, and runs of the code.
use mine_os.Prelude.{
  ◌*◌, ◌%◌, ◌≤◌, ℕ, ◌+◌, ◌%◌, ◌^◌, ◌≡◌, refl, inl, inr, true, false, List, [], ◌∷◌, ◌++◌, length,
  some, none, arith, if◌then◌else◌, ◌==◌,
}
use mine_os.I2c
use mine_os.I2c.{Msg, do_master, do_master_tx, at24cxx_write, at24cxx_read, start, stop}
use mine_os.I2c.Send.{sent, Stopped, Acks}
use mine_os.I2c.Receive.{fill, received, do_master_no_device}
use mine_os.I2c.Eeprom.{at24cxx_read_short}
use mine_os.Usb
use mine_os.Usb.{Usb, Status, DevState, Ep0State}
use mine_os.Usb.Control.{
  Request, Descriptor, Device, low_byte, handle_standard_input, handle_standard_output,
}
use mine_os.Usb.Handler.{ep0_handler}
use mine_os.Usb.Packets.{sends, message, at_place, message_sent}
use mine_os.Usb.Feature.{halt_reported}
use mine_os.Usb.Bounds.{Keeps, ep0_handler-Keeps}

-- A device that acknowledges and answers 7, and a bus with no device.
abbrev answering : I2c.Chip
answering = record { iiccon = λ _. 0xbe; iicstat = λ _. 0; iicds = λ _. 7 }

abbrev absent : I2c.Chip
absent = record { iiccon = λ _. 0xbe; iicstat = λ _. 1; iicds = λ _. 0 }

abbrev hello : ℕ → ℕ
hello j = 0x68 + j

abbrev hello_msg : Msg
hello_msg = record { addr = 0x50; flags = 0; len = 3; interrupts = 0; failed = false; buf = hello }

answering-Acks : Acks answering
unfolding I2c.no_ack
answering-Acks h = refl

absent_lem : (h : I2c.History) → I2c.no_ack absent h ≡ true
unfolding I2c.no_ack
absent_lem h = refl

do_master_no_device_example :
    (h' : I2c.History) × (do_master absent 2 hello_msg []
      ≡ some (record { msg = record hello_msg { interrupts = 1; failed = true }; log = h' }))
    × (sent h' ≡ hello_msg.addr * 2 % 256 ∷ [])
    × (received h' ≡ [])
    × Stopped 0xd0 h'
do_master_no_device_example = do_master_no_device absent 0 hello_msg [] absent_lem

at24cxx_read_example :
    (vs : List ℕ) × (a m : Msg) × (h' : I2c.History) × (at24cxx_read answering 6 0x20 hello 4 []
      ≡ some (record { msgs = a ∷ m ∷ []; failed = false; log = h' }))
    × (m.buf ≡ fill hello 0 vs)
    × (length vs + 1 ≡ 4)
    × (m.buf 3 ≡ hello 3)
    × (sent h' ≡ [] ++ 0xa0 ∷ 0x20 ∷ 0xa1 ∷ [])
at24cxx_read_example =
    at24cxx_read_short answering 6 0x20 4 hello [] answering-Acks (omega arith) (omega arith)

abbrev plain : Descriptor
plain = record { buf = λ j. j; size = 18 }

abbrev gadget : Device
gadget = record {
  dev_desc = plain;
  config_desc = plain;
  config_all = plain;
  interface_desc = plain;
  endpoint_desc = λ _. some plain;
  string_desc = λ _. none;
  report_desc = none;
  handle_class = none;
  reset = none;
}

abbrev free_chip : Usb.Chip
free_chip = record { ep0_csr = λ _. 1; out_fifo_cnt = λ _. 0 }

abbrev fresh : Usb
fresh = record {
  ub = record { buf = λ j. j; size = 18; count = 0 };
  ep0_state = Ep0State.transmit;
  usbd_state = DevState.configured;
  status = record {
    configuration_value = 0;
    alternate_setting = 0;
    device = 3;
    interface = 0;
    endpoint = λ _. 0;
  };
  log = [];
}

-- The 18 bytes of a device descriptor in packets of 8, 8 and 2 bytes.
message_sent_example :
    (sends free_chip 1 3 fresh
      ≡ some (record fresh {
        ub = at_place (λ j. j) 18 18;
        ep0_state = Ep0State.init;
        log = message (λ j. j) 0 2 2 [];
      }))
    × ((k : ℕ)
        → k ≤ 2
        → (v : Usb) × (sends free_chip 1 k fresh ≡ some v) × (v.ep0_state ≡ fresh.ep0_state))
message_sent_example = message_sent free_chip 0 fresh (λ h. refl) refl

-- The halt of endpoint 0x82.
abbrev halt : Request
halt = record { request_type = 2; request = 3; value = 0; index = 0x82; length = 0 }

abbrev query : Request
query = record { request_type = 0x82; request = 0; value = 0; index = 0x82; length = 2 }

halt_reported_example :
    (u₁ : Usb) × (u₂ : Usb) × (handle_standard_output gadget halt fresh ≡ some u₁)
    × (handle_standard_input gadget query u₁ ≡ some u₂)
    × (u₂.ub.size ≡ 2)
    × (u₂.ub.buf 0 ≡ (if low_byte halt.index == 0x82 then fresh.status.endpoint 2 % 2 ^ 8 else 1))
halt_reported_example =
    halt_reported gadget (record { first = refl; second = refl; third = refl }) halt query fresh
      (record { request = refl; recipient = refl; feature = refl })
      (record { request = refl; recipient = refl }) (inr (inr (inl refl))) refl

ep0_handler_example : Keeps (ep0_handler free_chip gadget 4 query fresh)
ep0_handler_example = ep0_handler-Keeps free_chip gadget 4 query fresh (λ f e. cc) (omega arith)
