-- ===== src/Monitor/Loop.antt =====
-- mon_help, mon_kerninfo and monitor of kern/monitor.c: the calls of cprintf, and the loop over what readline returns.
use Prim.Native.String.{String}
use mit6_828_lab.Base.{
  ℕ, ◌+◌, ◌-◌, ◌%◌, ◌^◌, ◌≡◌, refl, Bool, true, false, Option, none, some, List, [], ◌∷◌,
  if◌then◌else◌, map,
}
use mit6_828_lab.Base.Int.{ℤ, pos, negsuc}
use mit6_828_lab.Mmu.Macros.{kernbase}
use mit6_828_lab.Printf.Message.{number, constant, PrintCall}
use mit6_828_lab.Monitor.{
  Action, nothing, too_many_arguments, no_fuel, call, unknown_command, runcmd,
}
use mit6_828_lab.Monitor.Backtrace.{footprint}

-- The lines of mon_help, for the three commands.
abbrev help_line : (name desc : String) → PrintCall
help_line name desc = record {
  format = "%s - %s\n";
  arguments = constant name ∷ constant desc ∷ [];
}

pub mon_help : List PrintCall
mon_help =
    help_line "help" "Display this list of commands"
    ∷ help_line "kerninfo" "Display information about the kernel"
    ∷ help_line "backtrace" "Display a backtrace of the function stack"
    ∷ []

-- A symbol's virtual and physical address.
abbrev symbol_line : String → ℕ → PrintCall
symbol_line format address = record {
  format = format;
  arguments = number address ∷ number ((address + 2 ^ 32 - kernbase) % 2 ^ 32) ∷ [];
}

-- The arguments are the linker's symbols.
pub mon_kerninfo : (start entry etext edata end : ℕ) → List PrintCall
mon_kerninfo start entry etext edata end =
    record { format = "Special kernel symbols:\n"; arguments = [] }
    ∷ record { format = "  _start                  %08x (phys)\n"; arguments = number start ∷ [] }
    ∷ symbol_line "  entry  %08x (virt)  %08x (phys)\n" entry
    ∷ symbol_line "  etext  %08x (virt)  %08x (phys)\n" etext
    ∷ symbol_line "  edata  %08x (virt)  %08x (phys)\n" edata
    ∷ symbol_line "  end    %08x (virt)  %08x (phys)\n" end
    ∷ record {
      format = "Kernel executable memory footprint: %dKB\n";
      arguments = number (footprint entry end) ∷ [];
    }
    ∷ []

-- What runcmd returns: its own messages end with 0, and so does every command.
pub result_of : Action → ℤ
result_of nothing = pos 0
result_of too_many_arguments = pos 0
result_of no_fuel = pos 0
result_of (call command argv) = pos 0
result_of (unknown_command word) = pos 0

abbrev is_negative : ℤ → Bool
is_negative (pos n) = false
is_negative (negsuc n) = true

-- The lines that monitor starts with; `frame` is what print_trapframe prints.
pub greeting : Option (List PrintCall) → List PrintCall
greeting frame =
    record { format = "Welcome to the JOS kernel monitor!\n"; arguments = [] }
    ∷ record { format = "Type 'help' for a list of commands.\n"; arguments = [] }
    ∷ (elim frame [ none ↦ [] | some lines ↦ lines ])

-- The actions for the lines that readline gives, NULL being `none`, and whether the loop was left.
unfoldable pub monitor : List (Option (List ℕ)) → List Action × Bool
monitor [] = ([], false)
monitor (none ∷ rest) = monitor rest
monitor (some buf ∷ rest) =
    let (actions, left) = monitor rest in
    if is_negative (result_of (runcmd buf))
    then (runcmd buf ∷ [], true)
    else (runcmd buf ∷ actions, left)

-- The lines that are not NULL.
abbrev pub lines_of : List (Option (List ℕ)) → List (List ℕ)
lines_of [] = []
lines_of (none ∷ rest) = lines_of rest
lines_of (some buf ∷ rest) = buf ∷ lines_of rest

not_negative : (a : Action) → is_negative (result_of a) ≡ false
unfolding result_of
not_negative nothing = refl
not_negative too_many_arguments = refl
not_negative no_fuel = refl
not_negative (call command argv) = refl
not_negative (unknown_command word) = refl

-- The monitor runs every line that it reads, in order, and is never left.
pub monitor-runcmd :
    (reads : List (Option (List ℕ))) → monitor reads ≡ (map runcmd (lines_of reads), false)
unfolding monitor
monitor-runcmd [] = refl
monitor-runcmd (none ∷ rest) = monitor-runcmd rest
monitor-runcmd (some buf ∷ rest) = rw (not_negative (runcmd buf), monitor-runcmd rest) refl
