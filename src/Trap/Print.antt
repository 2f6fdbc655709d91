-- ===== src/Trap/Print.antt =====
-- print_trapframe and print_regs of kern/trap.c: the calls of cprintf that they make. `frame` is the frame's address, `last_tf` that
-- of the last trap's frame, and `cr2` what rcr2 reads.
use mit6_828_lab.Base.{ℕ, ◌/◌, ◌%◌, ◌^◌, List, [], ◌∷◌, ◌++◌, ◌==◌, ◌&&◌, if◌then◌else◌}
use Prim.Native.String.{String}
use mit6_828_lab.Printf.Message.{Value, number, text, constant, PrintCall}
use mit6_828_lab.Env.State.{PushRegs, Trapframe}
use mit6_828_lab.Trap.{trapname}

abbrev word_line : String → ℕ → PrintCall
word_line format w = record { format = format; arguments = number w ∷ [] }

unfoldable pub print_regs : PushRegs → List PrintCall
print_regs regs =
    word_line "  edi  0x%08x\n" regs.reg_edi
    ∷ word_line "  esi  0x%08x\n" regs.reg_esi
    ∷ word_line "  ebp  0x%08x\n" regs.reg_ebp
    ∷ word_line "  oesp 0x%08x\n" regs.reg_oesp
    ∷ word_line "  ebx  0x%08x\n" regs.reg_ebx
    ∷ word_line "  edx  0x%08x\n" regs.reg_edx
    ∷ word_line "  ecx  0x%08x\n" regs.reg_ecx
    ∷ word_line "  eax  0x%08x\n" regs.reg_eax
    ∷ []

-- T_PGFLT
abbrev pub t_pgflt : ℕ
t_pgflt = 14

-- `tf->tf_err & 2 ^ k ? yes : no`
abbrev err_word : (err k : ℕ) → (set clear : String) → Value
err_word err k set clear = constant (if err / 2 ^ k % 2 == 0 then clear else set)

-- The line that follows the error code.
unfoldable pub print_err : Trapframe → PrintCall
print_err tf =
    if tf.tf_trapno == t_pgflt
    then record {
      format = " [%s, %s, %s]\n";
      arguments =
          err_word tf.tf_err 2 "user" "kernel"
          ∷ err_word tf.tf_err 1 "write" "read"
          ∷ err_word tf.tf_err 0 "protection" "not-present"
          ∷ [];
    }
    else record { format = "\n"; arguments = [] }

-- The lines of the stack, for a frame from user mode.
unfoldable pub print_stack : Trapframe → List PrintCall
print_stack tf =
    if tf.tf_cs % 4 == 0
    then []
    else word_line "  esp  0x%08x\n" tf.tf_esp ∷ word_line "  ss   0x----%04x\n" tf.tf_ss ∷ []

unfoldable pub print_trapframe : (frame last_tf cr2 : ℕ) → Trapframe → List PrintCall
print_trapframe frame last_tf cr2 tf =
    word_line "TRAP frame at %p\n" frame ∷ print_regs tf.tf_regs
    ++ word_line "  es   0x----%04x\n" tf.tf_es
      ∷ word_line "  ds   0x----%04x\n" tf.tf_ds
      ∷ record {
        format = "  trap 0x%08x %s\n";
        arguments = number tf.tf_trapno ∷ text (trapname tf.tf_trapno) ∷ [];
      }
      ∷ (if (frame == last_tf) && (tf.tf_trapno == t_pgflt)
          then word_line "  cr2  0x%08x\n" cr2 ∷ []
          else [])
    ++ word_line "  err  0x%08x" tf.tf_err
      ∷ print_err tf
      ∷ word_line "  eip  0x%08x\n" tf.tf_eip
      ∷ word_line "  cs   0x----%04x\n" tf.tf_cs
      ∷ word_line "  flag 0x%08x\n" tf.tf_eflags
      ∷ print_stack tf
