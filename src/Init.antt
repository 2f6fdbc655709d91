-- ===== src/Init.antt =====
-- kern/init.c: i386_init, _panic and _warn.
use Prim.Native.String.{String}
use mit6_828_lab.Base.{ℕ, Option, none, some, List, [], ◌∷◌, ◌≡◌, refl}
use mit6_828_lab.Printf.Message.{number, text, constant, PrintCall}
use mit6_828_lab.Pmap.Kernel.{Kernel, Panic, ok, panic}
use mit6_828_lab.Pmap.Start.Init.{mem_init}
use mit6_828_lab.Pmap.Start.Ends.{mem_init_stops}
use mit6_828_lab.Trap.Percpu.{Percpu, env_init_percpu, trap_init_percpu}

-- What a panic does that can be seen: interrupts off, calls of cprintf, and the endless loop around the monitor.
pub data PanicEvent : Type 0 where
  cli : PanicEvent
  say : PrintCall → PanicEvent
  enter_monitor : PanicEvent

-- The three calls of cprintf about a message of the caller.
abbrev report_lines :
    (format : String) → (file : String) (line : ℕ) → PrintCall → List PanicEvent → List PanicEvent
report_lines format file line message rest =
    say (record { format = format; arguments = constant file ∷ number line ∷ [] })
    ∷ say message
    ∷ say (record { format = "\n"; arguments = [] })
    ∷ rest

-- With `panicstr` before and after.
unfoldable pub report_panic :
    (file : String) (line : ℕ) → PrintCall → Option String → List PanicEvent × Option String
report_panic file line message (some before) = (enter_monitor ∷ [], some before)
report_panic file line message none = (
  cli ∷ report_lines "kernel panic at %s:%d: " file line message (enter_monitor ∷ []),
  some message.format,
)

unfoldable pub report_warn : (file : String) (line : ℕ) → PrintCall → List PanicEvent
report_warn file line message = report_lines "kernel warning at %s:%d: " file line message []

-- The lines printed by i386_init before mem_init; `i` is the address of the variable with the bytes "rld".
pub init_messages : List PrintCall
init_messages =
    record { format = "Lab1_exercise8:\n"; arguments = [] }
    ∷ record { format = "x %d, y %x, z %d\n"; arguments = number 1 ∷ number 3 ∷ number 4 ∷ [] }
    ∷ record {
      format = "H%x Wo%s\n";
      arguments = number 57616 ∷ text (0x72 ∷ 0x6c ∷ 0x64 ∷ []) ∷ [];
    }
    ∷ record { format = "6828 decimal is %o octal!\n"; arguments = number 6828 ∷ [] }
    ∷ []

-- `memset(edata, 0, end - edata)`: the variables of kern/pmap.c among those that it clears.
unfoldable pub clear_bss : Kernel → Kernel
clear_bss s = record s { npages = 0; npages_basemem = 0; nextfree = 0; page_free_list = none }

-- Where the kernel stops: in a panic of mem_init, or in that of env_run, which is not implemented. ENV_CREATE calls the empty
-- env_create, and env_init and trap_init come to their parts for the processor.
pub data Halt : Type 0 where
  in_mem_init : Panic → Halt
  in_env_run : Halt

-- The linker's addresses of the tables are arguments, and what the parts that run before need.
unfoldable pub i386_init :
    (cmos : ℕ → ℕ) (fuel end bootstack cr0 gdt_addr ts_addr idt_addr : ℕ)
    → Kernel
    → Percpu
    → Halt × Percpu
i386_init cmos fuel end bootstack cr0 gdt_addr ts_addr idt_addr s p =
    elim (mem_init cmos fuel end bootstack cr0 (clear_bss s)) [
      | panic e ↦ (in_mem_init e, p)
      | ok r s' ↦ (in_env_run, trap_init_percpu ts_addr idt_addr (env_init_percpu gdt_addr p))
    ]

-- On no machine and with no fuel does mem_init of this tree return to i386_init: what i386_init gives is a panic of mem_init
-- (`endless` included, where the fuel runs out), the descriptor tables are not loaded and no environment runs.
pub i386_init_stops :
    (cmos : ℕ → ℕ) (fuel end bootstack cr0 gdt_addr ts_addr idt_addr : ℕ) (s : Kernel) (p : Percpu)
    → (e : Panic) × (i386_init cmos fuel end bootstack cr0 gdt_addr ts_addr idt_addr s p
        ≡ (in_mem_init e, p))
unfolding i386_init
i386_init_stops cmos fuel end bootstack cr0 gdt_addr ts_addr idt_addr s p =
    let (e, run) = mem_init_stops cmos fuel end bootstack cr0 (clear_bss s) in
    (e, rw (i386_init, run) refl)

-- Only the first panic is reported; its format stays in panicstr.
pub report_panic_again :
    (file file' : String) (line line' : ℕ) (message message' : PrintCall)
    → report_panic file' line' message' (report_panic file line message none).1
      ≡ (enter_monitor ∷ [], some message.format)
unfolding report_panic
report_panic_again file file' line line' message message' = refl
