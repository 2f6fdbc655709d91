-- ===== src/Printf/Message.antt =====
-- A call of cprintf with a fixed format: the format, and the arguments in their order.
use Prim.Native.String.{String}
use mit6_828_lab.Base.{ℕ, List}

-- A word, a string of the program's data, and a string constant.
pub data Value : Type 0 where
  number : ℕ → Value
  text : List ℕ → Value
  constant : String → Value

pub record PrintCall : Type 0 where
  pub format : String
  pub arguments : List Value
