-- ===== src/Init/Tests.antt =====
-- The start of the kernel on a terminal that shows the formats.
use sisop_tps.Prelude.{ℕ, ◌≡◌, List, [], ◌∷◌, ◌++◌, codes, true, arith}
use sisop_tps.Prelude.Run.{done, ◌>>=◌}
use sisop_tps.Memory.{Memory}
use sisop_tps.Readline.{Terminal}
use sisop_tps.Monitor.{Kernel}
use sisop_tps.Init.{panic_report, panic, monitor_forever}
use sisop_tps.Init.Order.{panic-again}

abbrev paper : Terminal (List ℕ)
paper = record {
  getchar = λ s. done (b'\n', s);
  cputchar = λ c s. s ++ (c ∷ []);
  cprintf = λ fmt ap s. done (s ++ fmt);
  iscons = true;
}

abbrev no_commands : Kernel
no_commands = record {
  commands = [];
  symbols = record { start = 0; entry = 0; etext = 0; edata = 0; end = 0 };
  prompt = 0;
  line_buf = 0x1000;
}

blank : Memory
blank _ = 0

panic-again_example :
    (panic_report paper 1 40 0x900 (codes "lost\n") [] (0, []) >>= λ s'.
    panic paper no_commands 1 1 2000 blank 2 50 0x950 (codes "again\n") [] s')
    ≡ (panic_report paper 1 40 0x900 (codes "lost\n") [] (0, []) >>= λ s'.
        monitor_forever paper no_commands 1 1 2000 blank s'.1)
panic-again_example =
    panic-again paper no_commands 1 1 2000 blank 1 40 0x900 2 50 0x950 (codes "lost\n") []
      (codes "again\n") [] (0, []) (λ e. omega arith)
