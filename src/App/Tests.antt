-- ===== src/App/Tests.antt =====
-- A boot of the three tasks of TEST == 2 and the decoder.
use preemptive_multi_tasked.Prelude.{◌≡◌, refl, some, arith}
use preemptive_multi_tasked.Task.{running, k_tsk_yield}
use preemptive_multi_tasked.Task.Schedule.{IsScheduled}
use preemptive_multi_tasked.Boot.{Machine}
use preemptive_multi_tasked.Samples.{image, reset_machine}
use preemptive_multi_tasked.App.{Entries, test2, main}
use preemptive_multi_tasked.App.Config.{boot_queues, main-decoder_first}

abbrev entries : Entries
entries = record {
  ktask1 = 0xa000;
  ktask2 = 0xb000;
  utask1 = 0xc000;
  utask2 = 0xd000;
  utask3 = 0xe000;
  msg_tsk1 = 0xf000;
}

main-decoder_first_example :
    (b' : Machine) × (main test2 image entries 0x2000_0001 0x13 reset_machine ≡ some (some b'))
    × IsScheduled b'.kernel.sched boot_queues
    × (b'.kernel.sched.current ≡ 0)
    × ((k_tsk_yield b'.kernel.sched).1.current ≡ 159)
    × (((k_tsk_yield b'.kernel.sched).1.tcbs 159).state ≡ running)
main-decoder_first_example =
    main-decoder_first image entries 0x2000_0001 (λ _. 0) reset_machine
      (record { high = refl; outside = λ p h. refl; idle = λ a. cc; ring = refl })
      (record {
        aligned = omega arith;
        stacks = omega arith;
        pos = omega arith;
        room = omega arith;
        le = omega arith;
        others = (omega arith, omega arith, omega arith);
      })
